-- ===== src/Suite/Ledger/Made.antt =====
-- The transaction that two tests of src/ledger.rs make.
use capycoin.Base.{
  Bool, ℕ, ◌<◌, ◌≡◌, ◌≢◌, refl, true, false, some, [], ◌∷◌, ◌==◌, arith, ==_ne, ==_iff, ◌∙◌,
}
use capycoin.Base.Int.{pos, ◌+ℤ◌, ◌-ℤ◌}
use capycoin.Sqlite.{err, ok, Conn, execute, sql_add, integer}
use capycoin.Database.{Uuid, Time, AccountRow, Transaction, Database}
use capycoin.Account.{new_account, create_accounts_table, save_account}
use capycoin.Account.Table.{insert_account, update_funds}
use capycoin.Ledger.{
  sql_error, sender_error, select_funds, update_statement, insert_statement,
  sender_account_not_enough_funds, sender_account_does_not_exist, receiver_account_does_not_exist,
  new_transaction, create_ledger_table, save_transaction, transfer, post, deduct, add_i64, sub_i64,
  insert_transaction,
}
use capycoin.Sqlite.Quiet.{IsQuiet, statement_ok, raise_if_no, raise_if_yes, from_outcome_ok}
use capycoin.Suite.{memory_by, unwrap, open_in_memory}
use capycoin.Suite.Ledger.{Ordered, create_tables, funded, make_transaction}

module _ (epoch : Time) (ids : ℕ → Uuid) (clock : ℕ → Time) (time_le : ℕ → ℕ → Bool)
    (distinct : (i j : ℕ) → ids i ≡ ids j → i ≡ j) (ticks : (i j : ℕ) → i < j → clock i < clock j)
    (order : Ordered epoch clock time_le) where
  pub self : (i : ℕ) → (ids i == ids i) ≡ true
  self i = (==_iff (ids i) (ids i)).1 refl

  pub different : (i j : ℕ) → i ≢ j → (ids i == ids j) ≡ false
  different i j ne = ==_ne (ids i) (ids j) (λ e. ne (distinct i j e))

  pub zero_one : (ids 0 == ids 1) ≡ false
  zero_one = different 0 1 (λ e. omega arith)

  pub one_zero : (ids 1 == ids 0) ≡ false
  one_zero = different 1 0 (λ e. omega arith)

  -- The database after each step of `make_transaction`.
  abbrev pub tabled : Conn Database
  tabled = record { db = record { accounts = some []; transactions = some [] }; calls = 12 }

  abbrev pub sender_row : AccountRow
  sender_row = record { account_id = ids 0; created = clock 0; funds = integer (pos 100) }

  abbrev pub receiver_row : AccountRow
  receiver_row = record { account_id = ids 1; created = clock 1; funds = integer (pos 0) }

  abbrev opened : Conn Database
  opened = record {
    db = record { accounts = some (sender_row ∷ receiver_row ∷ []); transactions = some [] };
    calls = 18;
  }

  pub create_tables_ok : create_tables epoch ids clock time_le open_in_memory ≡ (ok tt, tabled)
  unfolding execute create_tables create_ledger_table create_accounts_table unwrap
  create_tables_ok = refl

  abbrev pub half_opened : Conn Database
  half_opened = record {
    db = record { accounts = some (sender_row ∷ []); transactions = some [] };
    calls = 15;
  }

  pub first_saved :
      (now : Time)
      → save_account (memory_by time_le) now (funded epoch ids clock time_le 0) tabled
        ≡ (ok (record { account_id = ids 0; timestamp = now }), half_opened)
  unfolding execute funded save_account insert_account new_account
  first_saved now = refl

  second_saved :
      save_account (memory_by time_le) (clock 3) (new_account (ids 1) (clock 1)) half_opened
      ≡ (ok (record { account_id = ids 1; timestamp = clock 3 }), opened)
  unfolding execute save_account insert_account new_account
  second_saved = rw zero_one refl

  abbrev pub logged : Transaction
  logged = record {
    transaction_id = ids 2;
    timestamp = clock 5;
    sender_account_id = ids 0;
    receiver_account_id = ids 1;
    amount = pos 100;
    fee = pos 0;
  }

  abbrev pub paid : Conn Database
  paid = record {
    db = record {
      accounts = some (
          record sender_row { funds = integer (pos 0) }
          ∷ record receiver_row { funds = integer (pos 100) }
          ∷ []);
      transactions = some (logged ∷ []);
    };
    calls = 24;
  }

  quiet : IsQuiet (memory_by time_le)
  quiet n = refl

  abbrev begun : Conn Database
  begun = record opened { calls = 19 }

  abbrev debited : Database
  debited = record {
    accounts = some (record sender_row { funds = integer (pos 0) } ∷ receiver_row ∷ []);
    transactions = some [];
  }

  sender_selected : select_funds (ids 0) opened.db ≡ ok (pos 100, opened.db)
  sender_selected = ground (arith, self 0)

  sender_updated : update_statement (λ _. integer (pos 0)) (ids 0) opened.db ≡ ok (1, debited)
  unfolding update_funds
  sender_updated = rw (self 0, one_zero) refl

  receiver_updated :
      update_statement (λ c. sql_add c (pos 100)) (ids 1) debited
      ≡ ok (1, record (paid.db) { transactions = some [] })
  unfolding update_funds sql_add ◌+ℤ◌
  receiver_updated = rw (zero_one, self 1) refl

  logged_inserted :
      insert_statement logged (record (paid.db) { transactions = some [] }) ≡ ok (tt, paid.db)
  unfolding insert_transaction
  logged_inserted = refl

  posted :
      post (memory_by time_le) logged (pos 0) (record begun { calls = 20 })
      ≡ (ok (pos 0), record paid { calls = 23 })
  unfolding post
  posted =
      statement_ok (memory_by time_le) quiet sql_error _ (record begun { calls = 20 }) _
        sender_updated
      ∙ raise_if_no sender_account_does_not_exist (record { db = debited; calls = 21 }) _ refl
      ∙ statement_ok (memory_by time_le) quiet sql_error _ (record { db = debited; calls = 21 }) _
          receiver_updated
      ∙ raise_if_no receiver_account_does_not_exist _ _ refl
      ∙ statement_ok (memory_by time_le) quiet sql_error _ _ _ logged_inserted

  transferred : transfer (memory_by time_le) logged begun ≡ (ok (pos 0), record paid { calls = 23 })
  unfolding transfer deduct add_i64 sub_i64 ◌+ℤ◌ ◌-ℤ◌
  transferred =
      statement_ok (memory_by time_le) quiet sender_error _ begun _ sender_selected
      ∙ from_outcome_ok (record begun { calls = 20 }) _ refl
      ∙ raise_if_no sender_account_not_enough_funds (record begun { calls = 20 }) _ refl
      ∙ posted

  transaction_saved :
      save_transaction
        (memory_by time_le)
        (clock 5)
        (new_transaction (ids 2) (clock 4) (ids 0) (ids 1) (pos 100) (pos 0))
        opened
      ≡ (
        ok (record {
          transaction_id = ids 2;
          timestamp = clock 5;
          sender_account_id = ids 0;
          receiver_account_id = ids 1;
          sender_account_funds = pos 0;
          fee = pos 0;
        }),
        paid,
      )
  unfolding execute save_transaction new_transaction
  transaction_saved = rw (zero_one, transferred) refl

  pub transaction_made : make_transaction epoch ids clock time_le open_in_memory ≡ (ok tt, paid)
  unfolding execute make_transaction unwrap
  transaction_made =
      rw (create_tables_ok, first_saved (clock 2), second_saved, transaction_saved) refl

  -- A payment to an account that does not exist.
  abbrev half_debited : Conn Database
  half_debited = record {
    db = record {
      accounts = some (record sender_row { funds = integer (pos 0) } ∷ []);
      transactions = some [];
    };
    calls = 18;
  }

  abbrev unlogged : Transaction
  unlogged = record logged { timestamp = clock 3 }

  half_selected : select_funds (ids 0) half_opened.db ≡ ok (pos 100, half_opened.db)
  half_selected = ground (arith, self 0)

  half_updated :
      update_statement (λ _. integer (pos 0)) (ids 0) half_opened.db ≡ ok (1, half_debited.db)
  unfolding update_funds
  half_updated = rw (self 0) refl

  nothing_updated :
      update_statement (λ c. sql_add c (pos 100)) (ids 1) half_debited.db ≡ ok (0, half_debited.db)
  unfolding update_funds
  nothing_updated = rw zero_one refl

  refused :
      transfer (memory_by time_le) unlogged (record half_opened { calls = 16 })
      ≡ (err receiver_account_does_not_exist, record half_debited { calls = 19 })
  unfolding transfer post deduct add_i64 sub_i64 ◌+ℤ◌ ◌-ℤ◌
  refused =
      statement_ok (memory_by time_le) quiet sender_error _ (record half_opened { calls = 16 }) _
        half_selected
      ∙ from_outcome_ok (record half_opened { calls = 17 }) _ refl
      ∙ raise_if_no sender_account_not_enough_funds (record half_opened { calls = 17 }) _ refl
      ∙ statement_ok (memory_by time_le) quiet sql_error _ (record half_opened { calls = 17 }) _
          half_updated
      ∙ raise_if_no sender_account_does_not_exist half_debited _ refl
      ∙ statement_ok (memory_by time_le) quiet sql_error _ half_debited _ nothing_updated
      ∙ raise_if_yes receiver_account_does_not_exist (record half_debited { calls = 19 }) _ refl

  pub payment_refused :
      (save_transaction
        (memory_by time_le)
        (clock 3)
        (new_transaction (ids 2) (clock 2) (ids 0) (ids 1) (pos 100) (pos 0))
        half_opened).0
      ≡ err receiver_account_does_not_exist
  unfolding execute save_transaction new_transaction
  payment_refused = rw (zero_one, refused) refl
