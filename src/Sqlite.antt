-- ===== src/Sqlite.antt =====
-- The use of `rusqlite`: results, connections, statements and transactions. The SQL engine is a
-- parameter (`Engine`); what is fixed here is that a statement applies whole or fails and changes
-- nothing, and that a `Transaction` dropped before its commit is rolled back.
mod Monad
pub mod Laws
pub mod Keeps
pub mod Quiet
pub mod Fetch
unfoldable pub use Monad.*
use mathlib.Core.List.{Perm}
use capycoin.Base.{ℕ, suc, Option, none, some, List, [], ◌∷◌, Bool}
use capycoin.Base.Int.{ℤ, pos, ◌+ℤ◌, leb_ℤ, in_i64}
use capycoin.Base.{if◌then◌else◌}

-- `rusqlite::Error`, as far as the code tells the errors apart: a query without a row, a violated
-- constraint (`SqliteFailure` with `ConstraintViolation`), a column of another type than the one
-- asked for, and every other failure by a number.
pub data SqlError : Type 0 where
  query_returned_no_rows constraint_violation invalid_column_type no_such_table : SqlError
  failure : ℕ → SqlError

-- What the engine decides: whether the n-th call of a connection fails (busy, disk, and so on), the
-- order of the rows of a query without ORDER BY, and the order of the stored forms of timestamps.
pub record Engine : Type 1 where
  pub fault : ℕ → Option ℕ
  pub scan : (A : Type 0) → List A → List A
  pub scan_perm : (A : Type 0) (rows : List A) → Perm (scan A rows) rows
  pub time_le : ℕ → ℕ → Bool

-- A stored number: an INTEGER, or the REAL that SQLite's `+` gives when a sum passes the INTEGER
-- range (its value is never read).
pub data Cell : Type 0 where
  integer : ℤ → Cell
  real : Cell

-- `funds + (?)`
unfoldable pub sql_add : Cell → ℤ → Cell
sql_add (integer a) b = if in_i64 (a +ℤ b) then integer (a +ℤ b) else real
sql_add real b = real

-- `CHECK (funds >= 0)`; a REAL here is a sum above the INTEGER range.
abbrev pub is_nonneg : Cell → Bool
is_nonneg (integer a) = leb_ℤ (pos 0) a
is_nonneg real = Bool.true

-- `row.get(i)?` at type `i64`
abbrev pub get_i64 : Cell → Outcome SqlError ℤ
get_i64 (integer a) = ok a
get_i64 real = err invalid_column_type

-- A table that does not exist yet is `none`.
abbrev pub Table : Type 0 → Type 0
Table A = Option (List A)

abbrev pub rows_of : {A : Type 0} → Table A → Outcome SqlError (List A)
rows_of none = err no_such_table
rows_of (some rows) = ok rows

-- A step inside a statement.
abbrev pub and_then : {E A B : Type 0} → Outcome E A → (A → Outcome E B) → Outcome E B
and_then (ok a) f = f a
and_then (err e) f = err e
and_then panic f = panic

-- A query over a whole table.
abbrev pub select_from : {A B D : Type 0} → (List A → B) → Table A → D → Outcome SqlError (B × D)
select_from f none d = err no_such_table
select_from f (some rows) d = ok (f rows, d)

-- The end of a transaction that began at the database `before`.
abbrev pub settle : {D E A : Type 0} → D → Outcome E A × Conn D → Outcome E A × Conn D
settle before (ok a, c) = (ok a, c)
settle before (err e, c) = (err e, record c { db = before })
settle before (panic, c) = (panic, record c { db = before })

-- The end of a call: a fault, or the effect on the database. A failed statement changes nothing.
abbrev pub answer :
    {D A : Type 0} → Option ℕ → Conn D → Outcome SqlError (A × D) → Outcome SqlError A × Conn D
answer (some code) c r = (err (failure code), record c { calls = suc c.calls })
answer none c (ok (a, d)) = (ok a, record { db = d; calls = suc c.calls })
answer none c (err e) = (err e, record c { calls = suc c.calls })
answer none c panic = (panic, record c { calls = suc c.calls })

module _ (engine : Engine) {D : Type 0} where
  -- One call of the engine on the database `D`: it fails by a fault, or does `f`.
  unfoldable pub statement : {A : Type 0} → (D → Outcome SqlError (A × D)) → Sql D SqlError A
  statement f c = answer (engine.fault c.calls) c (f c.db)

  -- A call that only can fail: preparing a statement, BEGIN, CREATE INDEX, DROP VIEW, CREATE VIEW.
  unfoldable pub touch : Sql D SqlError (Unit {0})
  touch = statement (λ d. ok (tt, d))

  -- `con.transaction()?`, a body and `tx.commit()?`: every other way out of the body drops the
  -- transaction, which rolls the database back. `lift` is the `From` that `?` applies.
  unfoldable pub transaction : {E A : Type 0} → (SqlError → E) → Sql D E A → Sql D E A
  transaction lift body c =
      settle c.db ((do map_err lift touch; a ← body; map_err lift touch; pure a) c)

-- A query's loop over its rows, `while let Some(row) = rows.next()? { … }`: each round is a call,
-- and `read` is the body of the loop, which may fail at a column.
unfoldable pub fetch :
    Engine → {D R A : Type 0} → (R → Outcome SqlError A) → List R → Sql D SqlError (List A)
fetch engine read [] = do touch engine; pure []
fetch engine read (row ∷ rows) = do
  touch engine
  a ← from_outcome (read row)
  rest ← fetch engine read rows
  pure (a ∷ rest)

-- Running a call, as `run` does for the plumbing.
unfoldable pub execute : Unit {0}
unfolding run statement touch transaction fetch
execute = tt
