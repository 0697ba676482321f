-- ===== src/Suite/Ledger.antt =====
-- The tests of src/ledger.rs.
pub mod Made
pub mod Verified
use capycoin.Base.{
  ℕ, zero, suc, ◌<◌, ◌≤◌, ◌≡◌, ◌≢◌, refl, Bool, true, false, Option, none, some, List, [], ◌∷◌,
  ◌==◌, ◌&&◌, not, ltb, leb, length, arith, ==_ne, ==_iff, if◌then◌else◌, ◌∙◌,
}
use capycoin.Base.Int.{ℤ, pos, negsuc, eqb_ℤ, ◌+ℤ◌, ◌-ℤ◌}
use capycoin.Sqlite.{
  Outcome, ok, err, panic, Conn, Sql, ◌>>=◌, ◌>>◌, pure, assert, execute, sql_add, integer,
}
use capycoin.Database.{Uuid, Time, AccountRow, Transaction, Database}
use capycoin.Account.{Account, new_account, create_accounts_table, save_account}
use capycoin.Account.Table.{insert_account, update_funds}
use capycoin.Ledger.{
  TransactionError, sql_error, sender_error, select_funds, update_statement, insert_statement,
  amount_is_zero, amount_is_negative, fee_is_negative, sender_account_not_enough_funds,
  sender_account_does_not_exist, receiver_account_does_not_exist, new_transaction,
  create_ledger_table, save_transaction, get_transactions, transfer, post, deduct, add_i64, sub_i64,
  insert_transaction,
}
use capycoin.Sqlite.Quiet.{IsQuiet, statement_ok, raise_if_no, from_outcome_ok}
use capycoin.Suite.{memory_by, Test, unwrap, expect_err, count_table, Passes, open_in_memory, reads}

-- `#[derive(PartialEq)]` on the errors that the tests expect.
abbrev pub same_error : TransactionError → TransactionError → Bool
same_error amount_is_zero amount_is_zero = true
same_error amount_is_negative amount_is_negative = true
same_error fee_is_negative fee_is_negative = true
same_error sender_account_not_enough_funds sender_account_not_enough_funds = true
same_error sender_account_does_not_exist sender_account_does_not_exist = true
same_error receiver_account_does_not_exist receiver_account_does_not_exist = true
same_error _ _ = false

-- What the two tests that look for a transaction by its time rely on: in the order of the stored forms, the
-- transaction's time, `clock 5`, is not before the start of 1970 and not after the next time that is read,
-- and that time is after it.
abbrev pub Ordered : Time → (ℕ → Time) → (ℕ → ℕ → Bool) → Type 0
Ordered epoch clock time_le =
    (time_le epoch (clock 5) ≡ true)
    × (time_le (clock 5) (clock 6) ≡ true)
    × (time_le (clock 6) (clock 5) ≡ false)

-- The instant of `OffsetDateTime::UNIX_EPOCH` is given, as are the ids and the times that the calls of a
-- test draw, in their order.
module _ (epoch : Time) (ids : ℕ → Uuid) (clock : ℕ → Time) (time_le : ℕ → ℕ → Bool) where
  unfoldable pub test_new_transaction : Test (Unit {0})
  test_new_transaction =
      let tx1 = new_transaction (ids 2) (clock 0) (ids 0) (ids 1) (pos 100) (pos 0) in
      let tx2 = new_transaction (ids 5) (clock 1) (ids 3) (ids 4) (pos 100) (pos 0) in
      do
        assert (not (tx1.transaction_id == tx2.transaction_id))
        assert (not (tx1.timestamp == tx2.timestamp))

  unfoldable pub test_create_ledger_table : Test (Unit {0})
  test_create_ledger_table = do
    unwrap (create_ledger_table (memory_by time_le))
    n ← reads (λ d. count_table d.transactions)
    assert (n == 1)

  -- Both tables.
  unfoldable pub create_tables : Test (Unit {0})
  create_tables = do
    unwrap (create_ledger_table (memory_by time_le))
    unwrap (create_accounts_table (memory_by time_le))

  -- `Account::new()` with funds.
  unfoldable pub funded : ℕ → Account
  funded i = record (new_account (ids i) (clock i)) { funds = pos 100 }

  -- The part that `test_transaction_save_get` and `test_get_transactions_none_in_range` share: the accounts
  -- and a transaction of all funds of the first one.
  unfoldable pub make_transaction : Test (Unit {0})
  make_transaction = do
    create_tables
    unwrap (save_account (memory_by time_le) (clock 2) (funded 0))
    unwrap (save_account (memory_by time_le) (clock 3) (new_account (ids 1) (clock 1)))
    unwrap (
        save_transaction (memory_by time_le) (clock 5)
          (new_transaction (ids 2) (clock 4) (ids 0) (ids 1) (pos 100) (pos 0)))
    pure tt

  unfoldable pub test_transaction_save_get : Test (Unit {0})
  test_transaction_save_get = do
    make_transaction
    txs ← unwrap (get_transactions (memory_by time_le) (ids 0) (epoch, clock 6))
    assert (length txs == 1)

  unfoldable pub test_transaction_sender_not_exist : Test (Unit {0})
  test_transaction_sender_not_exist = do
    create_tables
    e ← expect_err (
        save_transaction (memory_by time_le) (clock 1)
          (new_transaction (ids 2) (clock 0) (ids 0) (ids 1) (pos 100) (pos 0)))
    assert (same_error e sender_account_does_not_exist)

  unfoldable pub test_transaction_sender_not_enough_funds : Test (Unit {0})
  test_transaction_sender_not_enough_funds = do
    create_tables
    unwrap (save_account (memory_by time_le) (clock 1) (new_account (ids 0) (clock 0)))
    e ← expect_err (
        save_transaction (memory_by time_le) (clock 3)
          (new_transaction (ids 2) (clock 2) (ids 0) (ids 1) (pos 100) (pos 0)))
    assert (same_error e sender_account_not_enough_funds)

  unfoldable pub test_transaction_receiver_not_exist : Test (Unit {0})
  test_transaction_receiver_not_exist = do
    create_tables
    unwrap (save_account (memory_by time_le) (clock 1) (funded 0))
    e ← expect_err (
        save_transaction (memory_by time_le) (clock 3)
          (new_transaction (ids 2) (clock 2) (ids 0) (ids 1) (pos 100) (pos 0)))
    assert (same_error e receiver_account_does_not_exist)

  unfoldable pub test_transaction_negative_amount : Test (Unit {0})
  test_transaction_negative_amount = do
    e ← expect_err (
        save_transaction (memory_by time_le) (clock 1)
          (new_transaction (ids 2) (clock 0) (ids 0) (ids 1) (negsuc 99) (pos 0)))
    assert (same_error e amount_is_negative)

  unfoldable pub test_transaction_zero_amount : Test (Unit {0})
  test_transaction_zero_amount = do
    e ← expect_err (
        save_transaction (memory_by time_le) (clock 1)
          (new_transaction (ids 2) (clock 0) (ids 0) (ids 1) (pos 0) (pos 0)))
    assert (same_error e amount_is_zero)

  unfoldable pub test_transaction_negative_fee : Test (Unit {0})
  test_transaction_negative_fee = do
    e ← expect_err (
        save_transaction (memory_by time_le) (clock 1)
          (new_transaction (ids 2) (clock 0) (ids 0) (ids 1) (pos 100) (negsuc 9)))
    assert (same_error e fee_is_negative)

  unfoldable pub test_get_transactions_none : Test (Unit {0})
  test_get_transactions_none = do
    unwrap (create_ledger_table (memory_by time_le))
    txs ← unwrap (get_transactions (memory_by time_le) (ids 0) (epoch, clock 0))
    assert (length txs == 0)

  unfoldable pub test_get_transactions_none_in_range : Test (Unit {0})
  test_get_transactions_none_in_range = do
    make_transaction
    txs ← unwrap (get_transactions (memory_by time_le) (ids 0) (clock 6, clock 7))
    assert (length txs == 0)
