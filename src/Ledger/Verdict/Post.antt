-- ===== src/Ledger/Verdict/Post.antt =====
-- The writes of `save_transaction` (src/ledger.rs) when no call fails, on every branch.
use capycoin.Base.{
  suc, ◌≡◌, refl, true, false, none, some, List, [], ◌∷◌, ◌++◌, arith, ◌==◌, is_some, ◌∙◌, ap,
  ==_ne,
}
use capycoin.Base.Int.{ℤ, pos, ◌≤ℤ◌}
use capycoin.Sqlite.{
  Cell, integer, sql_add, Engine, Conn, ok, err, bind, ◌>>◌, pure, raise_if, constraint_violation,
  statement, map_err, is_nonneg,
}
use capycoin.Sqlite.Quiet.{IsQuiet, statement_ok, statement_err, raise_if_no, raise_if_yes}
use capycoin.Database.{Uuid, AccountRow, Transaction, Database}
use capycoin.Account.Table.{find_account, set_funds, hits, update_funds}
use capycoin.Account.Sound.{
  IsSound, checks_present, checks_absent, hits_present, hits_absent, find_account-set_funds-none,
}
use capycoin.Ledger.{
  sql_error, post, sender_account_does_not_exist, receiver_account_does_not_exist, find_transaction,
  insert_transaction, update_statement, insert_statement,
}

-- An UPDATE that touches one account changes one row, if the new value passes its CHECK.
update_present :
    (f : Cell → Cell) (id : Uuid) (d : Database) (rows : List AccountRow) {row : AccountRow}
    → d.accounts ≡ some rows
    → IsSound rows
    → find_account id rows ≡ some row
    → is_nonneg (f row.funds) ≡ true
    → update_statement f id d
      ≡ ok (hits f id rows, record d { accounts = some (set_funds f id rows) })
unfolding update_funds
update_present f id d rows present sound found passes =
    ground (arith, checks_present f id rows sound found)

update_absent :
    (f : Cell → Cell) (id : Uuid) (d : Database) (rows : List AccountRow)
    → d.accounts ≡ some rows
    → find_account id rows ≡ none
    → update_statement f id d ≡ ok (0, record d { accounts = some (set_funds f id rows) })
unfolding update_funds
update_absent f id d rows present missing =
    ground (arith, checks_absent f id rows missing, hits_absent f id rows missing)

insert_taken :
    (t : Transaction) (d : Database) (txs : List Transaction)
    → d.transactions ≡ some txs
    → is_some (find_transaction t.transaction_id txs) ≡ true
    → insert_statement t d ≡ err constraint_violation
unfolding insert_transaction
insert_taken t d txs logged taken = ground arith

insert_new :
    (t : Transaction) (d : Database) (txs : List Transaction)
    → d.transactions ≡ some txs
    → is_some (find_transaction t.transaction_id txs) ≡ false
    → pos 1 ≤ℤ t.amount
    → t.fee ≡ pos 0
    → insert_statement t d ≡ ok (tt, record d { transactions = some (txs ++ t ∷ []) })
unfolding insert_transaction
insert_new t d txs logged is_new positive free = ground arith

module _ (engine : Engine) (quiet : IsQuiet engine) (t : Transaction) (funds : ℤ)
    (c : Conn Database) {rows : List AccountRow} {txs : List Transaction} {payer : AccountRow}
    (present : c.db.accounts ≡ some rows) (logged : c.db.transactions ≡ some txs)
    (sound : IsSound rows) (paying : find_account t.sender_account_id rows ≡ some payer)
    (enough : pos 0 ≤ℤ funds) where
  abbrev debit : Cell → Cell
  debit _ = integer funds

  abbrev credit : Cell → Cell
  credit cell = sql_add cell t.amount

  abbrev debited : List AccountRow
  debited = set_funds debit t.sender_account_id rows

  -- The connection after the first n calls of `post`.
  abbrev after_debit : Conn Database
  after_debit = record { db = record c.db { accounts = some debited }; calls = suc c.calls }

  abbrev after_credit : Conn Database
  after_credit = record {
    db = record c.db { accounts = some (set_funds credit t.receiver_account_id debited) };
    calls = suc (suc c.calls);
  }

  post_debit : post engine t funds c ≡ (
      let s = t.sender_account_id in
      bind
        (map_err sql_error
          (statement engine (update_statement credit t.receiver_account_id))
          after_debit)
        (λ received.
          raise_if (received == 0) receiver_account_does_not_exist
          >> (map_err sql_error (statement engine (insert_statement t)) >> pure funds)))
  unfolding post
  post_debit =
      statement_ok engine quiet sql_error (update_statement debit t.sender_account_id) c _
        (update_present debit t.sender_account_id c.db rows present sound paying (ground arith))
      ∙ raise_if_no sender_account_does_not_exist after_debit _
          (==_ne _ 0 (hits_present debit t.sender_account_id rows paying))

  pub post_no_receiver :
      find_account t.receiver_account_id rows ≡ none
      → (post engine t funds c).0 ≡ err receiver_account_does_not_exist
  post_no_receiver missing =
      ap (λ r. r.0)
        (post_debit
          ∙ statement_ok engine quiet sql_error (update_statement credit t.receiver_account_id)
              after_debit _
              (update_absent credit t.receiver_account_id after_debit.db debited refl (
                find_account-set_funds-none debit t.sender_account_id t.receiver_account_id rows
                  missing))
          ∙ raise_if_yes receiver_account_does_not_exist after_credit _ refl)

  module _ {receiver : AccountRow}
      (found : find_account t.receiver_account_id debited ≡ some receiver)
      (debited_sound : IsSound debited) (passes : is_nonneg (credit receiver.funds) ≡ true) where
    post_credit :
        post engine t funds c
        ≡ bind
            (map_err sql_error (statement engine (insert_statement t)) after_credit)
            (λ _. pure funds)
    post_credit =
        post_debit
        ∙ statement_ok engine quiet sql_error (update_statement credit t.receiver_account_id)
            after_debit _
            (update_present credit t.receiver_account_id after_debit.db debited refl debited_sound
              found passes)
        ∙ raise_if_no receiver_account_does_not_exist after_credit _
            (==_ne _ 0 (hits_present credit t.receiver_account_id debited found))

    pub post_taken :
        is_some (find_transaction t.transaction_id txs) ≡ true
        → (post engine t funds c).0 ≡ err (sql_error constraint_violation)
    post_taken taken =
        ap (λ r. r.0)
          (post_credit
            ∙ statement_err engine quiet sql_error (insert_statement t) after_credit _
                (insert_taken t after_credit.db txs logged taken))

    pub post_new :
        is_some (find_transaction t.transaction_id txs) ≡ false
        → pos 1 ≤ℤ t.amount
        → t.fee ≡ pos 0
        → (post engine t funds c).0 ≡ ok funds
    post_new is_new positive free =
        ap (λ r. r.0)
          (post_credit
            ∙ statement_ok engine quiet sql_error (insert_statement t) after_credit _
                (insert_new t after_credit.db txs logged is_new positive free))
