-- ===== src/Suite.antt =====
-- The unit tests of src/account.rs, src/ledger.rs and src/auth.rs: each is a run on a database in
-- memory, which panics where an assertion or an `unwrap` fails.
pub mod Account
pub mod Ledger
pub mod Auth
pub mod Verified
use mathlib.Core.Path.{subst}
use capycoin.Base.{ℕ, ◌<◌, ◌≡◌, Bool, true, false, Option, none, some, List, [], not, leb}
use mathlib.Core.List.Perm
use capycoin.Sqlite.{unwrapped, Engine, Outcome, ok, err, panic, Conn, Sql}
use capycoin.Database.{Uuid, Time, Database}

-- SQLite in memory: no call fails, rows come in the order of their insertion, and the stored forms of
-- timestamps are compared by `time_le`.
abbrev pub memory_by : (ℕ → ℕ → Bool) → Engine
memory_by time_le = record {
  fault = λ _. none;
  scan = λ A rows. rows;
  scan_perm = λ A rows. Perm.refl rows;
  time_le = time_le;
}

-- For the tests of src/account.rs and src/auth.rs, which compare no stored timestamps in SQL.
abbrev pub memory : Engine
memory = memory_by leb

-- `Connection::open_in_memory`
abbrev pub open_in_memory : Conn Database
open_in_memory = record { db = record { accounts = none; transactions = none }; calls = 0 }

abbrev pub error_of : {E F A : Type 0} → Outcome E A → Outcome F E
error_of (ok a) = panic
error_of (err e) = ok e
error_of panic = panic

-- A test gives no error of its own.
abbrev pub Test : Type 0 → Type 0
Test A = Sql Database ⊥ A

-- `.unwrap()` and `.expect_err(…)`
unfoldable pub unwrap : {D E A : Type 0} → Sql D E A → Sql D ⊥ A
unwrap m c = let (r, c') = m c in (unwrapped r, c')

unfoldable pub expect_err : {D E A : Type 0} → Sql D E A → Sql D ⊥ E
expect_err m c = let (r, c') = m c in (error_of r, c')

-- `select count(*) from sqlite_master where type='table' and name=…`
abbrev pub count_table : {A : Type 0} → Option A → ℕ
count_table none = 0
count_table (some table) = 1

abbrev pub PassesFrom : {D A : Type 0} → Conn D → Sql D ⊥ A → Type 0
PassesFrom {D} {A} c test = (a : A) × ((test c).0 ≡ ok a)

abbrev pub Passes : {A : Type 0} → Test A → Type 0
Passes test = PassesFrom open_in_memory test

-- The value that an assertion reads from the database.
abbrev pub reads : {A : Type 0} → (Database → A) → Test A
reads f c = (ok (f c.db), c)
