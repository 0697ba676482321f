-- ===== src/Account.antt =====
-- src/account.rs: the accounts table, and the operations on it.
pub mod Table
pub mod Sound
pub mod Save
pub mod Query
use capycoin.Base.{◌*◌, none, some, List, []}
use capycoin.Base.Int.{ℤ, pos}
use capycoin.Sqlite.{
  SqlError, query_returned_no_rows, constraint_violation, Cell, integer, get_i64, rows_of, and_then,
  select_from, Engine, Outcome, ok, err, panic, Sql, ◌>>=◌, ◌>>◌, pure, map_err, statement, touch,
  transaction, fetch,
}
use capycoin.Database.{Uuid, Time, day, AccountRow, Database}
use Table.{find_account, insert_account}

pub data AccountError : Type 0 where
  sql_error : SqlError → AccountError
  account_already_exists account_does_not_exist : AccountError

pub record Account : Type 0 where
  pub account_id : Uuid
  pub created : Time
  pub funds : ℤ

pub record AccountCreatedResult : Type 0 where
  pub account_id : Uuid
  pub timestamp : Time

-- `Account::new`; the random id and the time of the call are given.
unfoldable pub new_account : Uuid → Time → Account
new_account id now = record { account_id = id; created = now; funds = pos 0 }

abbrev pub seed_account_id : Uuid
seed_account_id = 0x4e9b616af11e48b68c2f9534d482e48e

-- `datetime!(2000-01-01 0:00 UTC)`
abbrev pub seed_account_stamp : Time
seed_account_stamp = 4382544 * day

unfoldable pub create_seed_account : Account
create_seed_account = record {
  account_id = seed_account_id;
  created = seed_account_stamp;
  funds = pos (1000 * 100);
}

-- The row that an INSERT of the account writes.
abbrev pub row_of : Account → AccountRow
row_of a = record { account_id = a.account_id; created = a.created; funds = integer a.funds }

-- Reading the three columns of a row.
abbrev pub read_account : AccountRow → Outcome SqlError Account
read_account r =
    and_then (get_i64 r.funds)
      (λ funds. ok (record { account_id = r.account_id; created = r.created; funds = funds }))

-- How `save_account` reports a failed INSERT.
abbrev pub insert_error : SqlError → AccountError
insert_error constraint_violation = account_already_exists
insert_error e = sql_error e

-- How `load_account` reports a failed query.
abbrev pub load_error : SqlError → AccountError
load_error query_returned_no_rows = account_does_not_exist
load_error e = sql_error e

-- `CREATE TABLE IF NOT EXISTS accounts`
abbrev pub with_accounts : Database → Database
with_accounts d = elim d.accounts [ none ↦ record d { accounts = some [] } | some rows ↦ d ]

-- The INSERT of `save_account`.
abbrev pub insert_statement : Account → Database → Outcome SqlError (Unit {0} × Database)
insert_statement a d = and_then (rows_of d.accounts) λ rows.
    and_then (insert_account (row_of a) rows) λ rows'. ok (tt, record d { accounts = some rows' })

-- The query of `load_account`.
abbrev pub load_statement : Uuid → Database → Outcome SqlError (Account × Database)
load_statement id d = and_then (rows_of d.accounts) λ rows. elim (find_account id rows) [
  | none ↦ err query_returned_no_rows
  | some r ↦ and_then (read_account r) λ a. ok (a, d)
]

module _ (engine : Engine) where
  unfoldable pub create_accounts_table : Sql Database AccountError (Unit {0})
  create_accounts_table = transaction engine sql_error do
    map_err sql_error (statement engine (λ d. ok (tt, with_accounts d)))
    map_err sql_error (touch engine)
    map_err sql_error (touch engine)

  -- `now` is the time of the call, taken after the commit.
  unfoldable pub save_account : Time → Account → Sql Database AccountError AccountCreatedResult
  save_account now account = do
    transaction engine sql_error
        (map_err insert_error (statement engine (insert_statement account)))
    pure (record { account_id = account.account_id; timestamp = now })

  unfoldable pub load_account : Uuid → Sql Database AccountError Account
  load_account id = map_err load_error (statement engine (load_statement id))

  -- `prepare`, `query`, and the loop over the rows.
  unfoldable pub get_accounts : Sql Database AccountError (List Account)
  get_accounts = map_err sql_error do
    touch engine
    rows ← statement engine (λ d. select_from (λ rows. rows) d.accounts d)
    fetch engine read_account (engine.scan AccountRow rows)
