-- ===== src/Ledger.antt =====
-- src/ledger.rs: the transactions table, and the operations on it.
pub mod Statements
pub mod Transfer
pub mod Conserve
pub mod Save
pub mod History
pub mod Consistent
pub mod Reconcile
pub mod Entries
pub mod Verdict
pub mod Query
pub mod RoundTrip
use capycoin.Base.{
  ℕ, Bool, ◌&&◌, ◌||◌, Option, none, some, List, [], ◌∷◌, ◌++◌, ◌==◌, if◌then◌else◌, is_some,
  filter,
}
use capycoin.Base.Int.{ℤ, pos, ◌+ℤ◌, ◌-ℤ◌, ltb_ℤ, leb_ℤ, eqb_ℤ, in_i64}
use capycoin.Sqlite.{
  SqlError, query_returned_no_rows, constraint_violation, Cell, integer, sql_add, get_i64, rows_of,
  and_then, select_from, Engine, Outcome, ok, err, panic, Sql, ◌>>=◌, ◌>>◌, pure, throw, raise_if,
  assert, from_outcome, map_err, statement, touch, transaction, fetch,
}
use capycoin.Database.{Uuid, Time, Transaction, Database}
use capycoin.Account.Table.{find_account, update_funds}

pub data TransactionError : Type 0 where
  sql_error : SqlError → TransactionError
  amount_is_zero amount_is_negative fee_is_negative : TransactionError
  sender_account_not_enough_funds sender_account_does_not_exist : TransactionError
  receiver_account_does_not_exist sender_receiver_are_the_same : TransactionError
  transaction_does_not_exist permission_denied : TransactionError

pub record TransactionReceipt : Type 0 where
  pub transaction_id : Uuid
  pub timestamp : Time
  pub sender_account_id : Uuid
  pub receiver_account_id : Uuid
  pub sender_account_funds : ℤ
  pub fee : ℤ

-- `Transaction::new`; the random id and the time of the call are given.
unfoldable pub new_transaction : Uuid → Time → Uuid → Uuid → ℤ → ℤ → Transaction
new_transaction id now sender receiver amount fee = record {
  transaction_id = id;
  timestamp = now;
  sender_account_id = sender;
  receiver_account_id = receiver;
  amount = amount;
  fee = fee;
}

-- `+` and `-` on `i64`, which panic at an overflow (the development profile of Cargo).
unfoldable pub add_i64 : {E : Type 0} → ℤ → ℤ → Outcome E ℤ
add_i64 a b = if in_i64 (a +ℤ b) then ok (a +ℤ b) else panic

unfoldable pub sub_i64 : {E : Type 0} → ℤ → ℤ → Outcome E ℤ
sub_i64 a b = if in_i64 (a -ℤ b) then ok (a -ℤ b) else panic

-- The sender's funds without the amount and the fee.
unfoldable pub deduct : {E : Type 0} → ℤ → Transaction → Outcome E ℤ
unfolding add_i64 sub_i64
deduct held t = and_then (add_i64 t.amount t.fee) (λ deducted. sub_i64 held deducted)

-- `SELECT … FROM transactions WHERE transaction_id = (?)`: the row with the key.
abbrev pub find_transaction : Uuid → List Transaction → Option Transaction
find_transaction id [] = none
find_transaction id (t ∷ txs) = if t.transaction_id == id then some t else find_transaction id txs

-- `INSERT INTO transactions`, under the PRIMARY KEY and the CHECKs on amount and fee.
unfoldable pub insert_transaction :
    Transaction → List Transaction → Outcome SqlError (List Transaction)
insert_transaction t txs =
    if is_some (find_transaction t.transaction_id txs)
    then err constraint_violation
    else if ltb_ℤ (pos 0) t.amount && leb_ℤ (pos 0) t.fee
    then ok (txs ++ t ∷ [])
    else err constraint_violation

-- How the queries of `save_transaction` and `get_transaction` report their errors.
abbrev pub sender_error : SqlError → TransactionError
sender_error query_returned_no_rows = sender_account_does_not_exist
sender_error e = sql_error e

abbrev pub lookup_error : SqlError → TransactionError
lookup_error query_returned_no_rows = transaction_does_not_exist
lookup_error e = sql_error e

-- `SELECT funds FROM accounts WHERE account_id = (?)`, read as an `i64`.
abbrev pub select_funds : Uuid → Database → Outcome SqlError (ℤ × Database)
select_funds id d = and_then (rows_of d.accounts) λ rows. elim (find_account id rows) [
  | none ↦ err query_returned_no_rows
  | some r ↦ and_then (get_i64 r.funds) λ funds. ok (funds, d)
]

-- `UPDATE accounts SET funds = … WHERE account_id = (?)`, with the number of rows changed.
abbrev pub update_statement : (Cell → Cell) → Uuid → Database → Outcome SqlError (ℕ × Database)
update_statement f id d = and_then (rows_of d.accounts) λ rows.
    and_then (update_funds f id rows)
      λ changed. ok (changed.0, record d { accounts = some changed.1 })

abbrev pub insert_statement : Transaction → Database → Outcome SqlError (Unit {0} × Database)
insert_statement t d = and_then (rows_of d.transactions) λ txs.
    and_then (insert_transaction t txs) λ txs'. ok (tt, record d { transactions = some txs' })

-- The query of `get_transaction`.
abbrev pub find_statement : Uuid → Database → Outcome SqlError (Transaction × Database)
find_statement id d =
    and_then (rows_of d.transactions) λ txs. elim (find_transaction id txs) [
      | none ↦ err query_returned_no_rows
      | some t ↦ ok (t, d)
    ]

-- `CREATE TABLE IF NOT EXISTS transactions`
abbrev pub with_transactions : Database → Database
with_transactions d = elim d.transactions [
  | none ↦ record d { transactions = some [] }
  | some txs ↦ d
]

-- Whether the account is the sender or the receiver.
abbrev pub is_party : Uuid → Transaction → Bool
is_party id t = t.sender_account_id == id || t.receiver_account_id == id

module _ (engine : Engine) where
  unfoldable pub create_ledger_table : Sql Database TransactionError (Unit {0})
  create_ledger_table = transaction engine sql_error do
    map_err sql_error (statement engine (λ d. ok (tt, with_transactions d)))
    map_err sql_error (touch engine)
    map_err sql_error (touch engine)
    map_err sql_error (touch engine)
    map_err sql_error (touch engine)

  -- The writes of `save_transaction`: the sender's row, the receiver's row, and the ledger's.
  unfoldable pub post : Transaction → ℤ → Sql Database TransactionError ℤ
  post t tx_funds = do
    sent ←
        map_err sql_error
          (statement engine (update_statement (λ _. integer tx_funds) t.sender_account_id))
    raise_if (sent == 0) sender_account_does_not_exist
    received ←
        map_err sql_error
          (statement engine (update_statement (λ c. sql_add c t.amount) t.receiver_account_id))
    raise_if (received == 0) receiver_account_does_not_exist
    map_err sql_error (statement engine (insert_statement t))
    pure tx_funds

  -- The body of the transaction of `save_transaction`, up to the commit. `t` holds the time that is
  -- stored. The value is the sender's new funds.
  unfoldable pub transfer : Transaction → Sql Database TransactionError ℤ
  transfer t = do
    held ← map_err sender_error (statement engine (select_funds t.sender_account_id))
    tx_funds ← from_outcome (deduct held t)
    raise_if (ltb_ℤ tx_funds (pos 0)) sender_account_not_enough_funds
    post t tx_funds

  -- `now` is the time that the ledger stores and the receipt shows.
  unfoldable pub save_transaction :
      Time → Transaction → Sql Database TransactionError TransactionReceipt
  save_transaction now t = do
    raise_if (eqb_ℤ t.amount (pos 0)) amount_is_zero
    raise_if (ltb_ℤ t.amount (pos 0)) amount_is_negative
    raise_if (ltb_ℤ t.fee (pos 0)) fee_is_negative
    raise_if (t.sender_account_id == t.receiver_account_id) sender_receiver_are_the_same
    assert (eqb_ℤ t.fee (pos 0))
    tx_funds ← transaction engine sql_error (transfer (record t { timestamp = now }))
    pure (record {
      transaction_id = t.transaction_id;
      timestamp = now;
      sender_account_id = t.sender_account_id;
      receiver_account_id = t.receiver_account_id;
      sender_account_funds = tx_funds;
      fee = t.fee;
    })

  -- The WHERE clause of `get_transactions`; the timestamps are compared in their stored form.
  abbrev pub selects : Uuid → Time → Time → Transaction → Bool
  selects id begin_time end_time t =
      is_party id t
      && (engine.time_le begin_time t.timestamp && engine.time_le t.timestamp end_time)

  unfoldable pub get_transactions :
      Uuid → Time × Time → Sql Database TransactionError (List Transaction)
  get_transactions id (begin_time, end_time) = map_err sql_error do
    touch engine
    txs ←
        statement engine λ d. select_from (filter (selects id begin_time end_time)) d.transactions d
    fetch engine (λ t. ok t) (engine.scan Transaction txs)

  unfoldable pub get_transaction : Uuid → Uuid → Sql Database TransactionError Transaction
  get_transaction account_id transaction_id = do
    t ← map_err lookup_error (statement engine (find_statement transaction_id))
    if is_party account_id t then pure t else throw permission_denied
