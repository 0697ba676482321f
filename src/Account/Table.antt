-- ===== src/Account/Table.antt =====
-- The statements on the rows of `accounts`: SELECT by key, INSERT and UPDATE with its CHECK.
use capycoin.Base.{
  ℕ, ◌+◌, Bool, true, ◌&&◌, Option, none, some, List, [], ◌∷◌, ◌++◌, ◌==◌, if◌then◌else◌, is_some,
}
use capycoin.Sqlite.{SqlError, constraint_violation, Cell, is_nonneg, Outcome, ok, err}
use capycoin.Database.{Uuid, AccountRow}

-- `SELECT … FROM accounts WHERE account_id = (?)`: the row with the key.
abbrev pub find_account : Uuid → List AccountRow → Option AccountRow
find_account id [] = none
find_account id (r ∷ rows) = if r.account_id == id then some r else find_account id rows

-- `INSERT INTO accounts`, under the PRIMARY KEY and `CHECK (funds >= 0)`.
unfoldable pub insert_account : AccountRow → List AccountRow → Outcome SqlError (List AccountRow)
insert_account r rows =
    if is_some (find_account r.account_id rows)
    then err constraint_violation
    else if is_nonneg r.funds
    then ok (rows ++ r ∷ [])
    else err constraint_violation

module _ (f : Cell → Cell) (id : Uuid) where
  -- The rows after `UPDATE accounts SET funds = f(funds) WHERE account_id = id`.
  abbrev pub set_funds : List AccountRow → List AccountRow
  set_funds [] = []
  set_funds (r ∷ rows) =
      (if r.account_id == id then record r { funds = f r.funds } else r) ∷ set_funds rows

  -- The number of rows that it changes.
  abbrev pub hits : List AccountRow → ℕ
  hits [] = 0
  hits (r ∷ rows) = (if r.account_id == id then 1 else 0) + hits rows

  -- Whether every changed row passes its CHECK.
  abbrev pub checks : List AccountRow → Bool
  checks [] = true
  checks (r ∷ rows) = (if r.account_id == id then is_nonneg (f r.funds) else true) && checks rows

  unfoldable pub update_funds : List AccountRow → Outcome SqlError (ℕ × List AccountRow)
  update_funds rows =
      if checks rows then ok (hits rows, set_funds rows) else err constraint_violation
