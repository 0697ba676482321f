-- ===== src/Core/Start.antt =====
-- How `main` of src/bin/core.rs begins: what the database is when the loop starts, and what it is when
-- the process ends before.
pub mod Keeps
use mathlib.Core.Path.{subst}
use capycoin.Base.{◌≡◌, refl, ◌⊎◌, inl, inr, none, some, List, [], sym, arith}
use capycoin.Sqlite.{SqlError, Outcome, ok, err, panic, Engine, Conn, Sql, bind, map_err, touch}
use capycoin.Sqlite.Laws.{
  Ensures, Settles, bind-Ensures, transaction-Settles, statement_then, touch-Ensures,
}
use capycoin.Sqlite.Fetch.{map_err-Settles, touch-Settles}
use capycoin.Database.{Time, AccountRow, Transaction, Database}
use capycoin.Account.{AccountError, with_accounts, create_accounts_table, create_seed_account}
use capycoin.Ledger.{TransactionError, with_transactions, create_ledger_table}
use capycoin.Account.Save.{save_account-Settles}
use capycoin.Account.Sound.{total}
use capycoin.Ledger.Consistent.{IsConsistent, opening, minted, Inserted-IsConsistent}
use capycoin.Core.{sql_error, account_error, ledger_error, ignore_error, start}

-- The accounts table is new and the ledger's is missing, or both are in agreement.
abbrev pub IsTabled : Database → Type 0
IsTabled d = ((d.accounts ≡ some []) × (d.transactions ≡ none)) ⊎ IsConsistent d

-- What may be stored while no process runs: nothing yet, or what a start has left.
abbrev pub IsStored : Database → Type 0
IsStored d = ((d.accounts ≡ none) × (d.transactions ≡ none)) ⊎ IsTabled d

-- A success leaves a database of the one kind, an error one of the other, and there is no panic.
abbrev pub Leaves : {D E A : Type 0} → (D → Type 0) → (D → Type 0) → Outcome E A × Conn D → Type 0
Leaves P Q (ok a, c) = Q c.db
Leaves P Q (err e, c) = P c.db
Leaves P Q (panic, c) = ⊥

module _ {D : Type 0} (P : D → Type 0) where
  pub bind-Leaves :
      {E A B : Type 0} (Q R : D → Type 0) (r : Outcome E A × Conn D) (f : A → Sql D E B)
      → Leaves P Q r
      → ((a : A) (c : Conn D) → Q c.db → Leaves P R (f a c))
      → Leaves P R (bind r f)
  unfolding bind
  bind-Leaves Q R (ok a, c) f h k = k a c h
  bind-Leaves Q R (err e, c) f h k = h
  bind-Leaves Q R (panic, c) f h k = h

  pub Leaves-of-Settles :
      {E A : Type 0} (before : D) (Q : A → D → Type 0) (R : D → Type 0) (r : Outcome E A × Conn D)
      → Settles before Q r
      → P before
      → ((a : A) (d : D) → Q a d → R d)
      → Leaves P R r
  Leaves-of-Settles before Q R (ok a, c) h p k = k a c.db h
  Leaves-of-Settles before Q R (err e, c) h p k = subst P (sym h) p
  Leaves-of-Settles before Q R (panic, c) h p k = h

module _ (P : Database → Type 0) where
  -- An error that is only printed is a success.
  pub ignore_error-Leaves :
      {E A : Type 0} (F : Type 0) (Q : A → Database → Type 0) (R : Database → Type 0)
      (m : Sql Database E A) (c : Conn Database)
      → Settles c.db Q (m c)
      → R c.db
      → ((a : A) (d : Database) → Q a d → R d)
      → Leaves P R (ignore_error {F = F} m c)
  unfolding ignore_error
  ignore_error-Leaves {E} {A} F Q R m c h p k = go (m c) h
    where
      go :
          (r : Outcome E A × Conn Database)
          → Settles c.db Q r
          → Leaves P R (ignore_error {F = F} (λ _. r) c)
      go (ok a, c') h = k a c'.db h
      go (err e, c') h = subst R (sym h) p
      go (panic, c') h = h

module _ (engine : Engine) where
  -- Calls that only can fail, after what has been done.
  touch_then :
      {D E A : Type 0} (Q : D → Type 0) (R : A → D → Type 0) (lift : _ → E) (c : Conn D)
      (k : Unit {0} → Sql D E A)
      → Q c.db
      → ((c' : Conn D) → Q c'.db → Ensures R (k tt c'))
      → Ensures R (bind (map_err lift (touch engine) c) k)
  touch_then Q R lift c k q h =
      bind-Ensures (λ _ d. Q d) R _ k (touch-Ensures engine (λ _ d. Q d) lift c q)
        (λ _ c' q'. h c' q')

  pub create_accounts_table-Settles :
      (c : Conn Database)
      → Settles c.db (λ _ d. d ≡ with_accounts c.db) (create_accounts_table engine c)
  unfolding create_accounts_table
  create_accounts_table-Settles c =
      let Q = λ (d : Database). d ≡ with_accounts c.db in
      transaction-Settles engine (λ _ d. Q d) AccountError.sql_error _ c
        λ begun same.
          statement_then engine (λ _ d. Q d) AccountError.sql_error _ begun _ (λ e. cc)
            λ _ c₁ e.
              touch_then Q (λ _ d. Q d) AccountError.sql_error c₁ _ (cc)
                λ c₂ q. touch-Ensures engine (λ _ d. Q d) AccountError.sql_error c₂ q

  pub create_ledger_table-Settles :
      (c : Conn Database)
      → Settles c.db (λ _ d. d ≡ with_transactions c.db) (create_ledger_table engine c)
  unfolding create_ledger_table
  create_ledger_table-Settles c =
      let Q = λ (d : Database). d ≡ with_transactions c.db in
      let lift : SqlError → TransactionError = λ e. TransactionError.sql_error e in
      transaction-Settles engine (λ _ d. Q d) lift _ c
        λ begun same.
          statement_then engine (λ _ d. Q d) lift _ begun _ (λ e. cc)
            λ _ c₁ e.
              touch_then Q (λ _ d. Q d) lift c₁ _ (cc)
                λ c₂ q₂.
                  touch_then Q (λ _ d. Q d) lift c₂ _ q₂
                    λ c₃ q₃.
                      touch_then Q (λ _ d. Q d) lift c₃ _ q₃
                        λ c₄ q₄. touch-Ensures engine (λ _ d. Q d) lift c₄ q₄

with_accounts-present :
    (d : Database) (rows : List AccountRow) → d.accounts ≡ some rows → with_accounts d ≡ d
with_accounts-present d rows e = ground arith

with_accounts-IsTabled : (d : Database) → IsStored d → IsTabled (with_accounts d)
with_accounts-IsTabled d (inl (no_accounts, no_ledger)) = inl (ground arith, ground arith)
with_accounts-IsTabled d (inr (inl (accounts, no_ledger))) =
    subst IsTabled (sym (with_accounts-present d [] accounts)) (inl (accounts, no_ledger))
with_accounts-IsTabled d (inr (inr c)) =
    subst IsTabled (sym (with_accounts-present d c.rows c.is_accounts)) (inr c)

with_transactions-present :
    (d : Database) (txs : List Transaction) → d.transactions ≡ some txs → with_transactions d ≡ d
with_transactions-present d txs e = ground arith

-- Two empty tables agree.
pub empty-IsConsistent :
    (d : Database) → d.accounts ≡ some [] → d.transactions ≡ some [] → IsConsistent d
unfolding total minted
empty-IsConsistent d accounts ledger = record {
  rows = [];
  txs = [];
  is_accounts = accounts;
  is_ledger = ledger;
  sound = tt;
  known = tt;
  reconciled = λ id a h. cc (h.found);
  closed = refl;
}

with_transactions-IsConsistent : (d : Database) → IsTabled d → IsConsistent (with_transactions d)
with_transactions-IsConsistent d (inl (accounts, no_ledger)) =
    empty-IsConsistent (with_transactions d) (ground arith) (ground arith)
with_transactions-IsConsistent d (inr c) =
    subst IsConsistent (sym (with_transactions-present d c.txs c.is_ledger)) c

seed-opening : create_seed_account.funds ≡ opening create_seed_account.account_id
unfolding opening create_seed_account
seed-opening = refl

-- Whatever calls fail, when `main` gets to its loop the tables exist and agree, if what was stored
-- is nothing or what an earlier start left; when it ends before, that holds of what is stored again;
-- and it does not panic.
pub start-Leaves :
    (engine : Engine) (now : Time) (c : Conn Database)
    → IsStored c.db
    → Leaves IsStored IsConsistent (start engine now c)
unfolding start
start-Leaves engine now c stored =
    bind-Leaves IsStored IsStored IsConsistent _ _
      (Leaves-of-Settles IsStored c.db _ IsStored _
        (map_err-Settles c.db _ sql_error _ c (touch-Settles engine c.db c refl)) stored
        (λ _ d same. subst IsStored (sym same) stored))
      λ _ c₁ stored₁.
        bind-Leaves IsStored IsTabled IsConsistent _ _
          (Leaves-of-Settles IsStored c₁.db _ IsTabled _
            (map_err-Settles c₁.db _ account_error _ c₁ (create_accounts_table-Settles engine c₁))
            stored₁ (λ _ d same. subst IsTabled (sym same) (with_accounts-IsTabled c₁.db stored₁)))
          λ _ c₂ tabled.
            bind-Leaves IsStored IsConsistent IsConsistent _ _
              (Leaves-of-Settles IsStored c₂.db _ IsConsistent _
                (map_err-Settles c₂.db _ ledger_error _ c₂ (create_ledger_table-Settles engine c₂))
                (inr tabled)
                (λ _ d same.
                  subst IsConsistent (sym same) (with_transactions-IsConsistent c₂.db tabled)))
              λ _ c₃ ready.
                ignore_error-Leaves IsStored _ _ IsConsistent _ c₃
                  (save_account-Settles engine now create_seed_account c₃) ready
                  (λ _ d saved.
                    Inserted-IsConsistent create_seed_account saved.1 seed-opening ready)
