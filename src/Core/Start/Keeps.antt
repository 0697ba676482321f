-- ===== src/Core/Start/Keeps.antt =====
-- A property of the database that the steps of the start of `main` (src/bin/core.rs) keep.
use mathlib.Core.Path.{subst}
use capycoin.Base.{refl, sym}
use capycoin.Sqlite.{Engine, Outcome, ok, err, panic, Conn}
use capycoin.Sqlite.Fetch.{map_err-Settles, touch-Settles}
use capycoin.Database.{Time, Database}
use capycoin.Account.{with_accounts, create_seed_account}
use capycoin.Account.Save.{Inserted, save_account-Settles}
use capycoin.Ledger.{with_transactions}
use capycoin.Core.{sql_error, account_error, ledger_error, start}
use capycoin.Core.Start.{
  Leaves, bind-Leaves, Leaves-of-Settles, ignore_error-Leaves, create_accounts_table-Settles,
  create_ledger_table-Settles,
}

module _ (engine : Engine) (now : Time) (Property : Database → Type 0)
    (tabled : (d : Database) → Property d → Property (with_accounts d))
    (logged : (d : Database) → Property d → Property (with_transactions d))
    (seeded : (d d' : Database)
      → Property d
      → Inserted create_seed_account d d'
      → Property d') where
  Leaves_same :
      {E A : Type 0} (r : Outcome E A × Conn Database)
      → Leaves Property Property r
      → Property r.1.db
  Leaves_same (ok a, c) h = h
  Leaves_same (err e, c) h = h
  Leaves_same (panic, c) h = absurd h

  pub start_keeps : (c : Conn Database) → Property c.db → Property (start engine now c).1.db
  unfolding start
  start_keeps c h = Leaves_same (start engine now c) (
      bind-Leaves Property Property Property _ _
        (Leaves-of-Settles Property c.db _ Property _
          (map_err-Settles c.db _ sql_error _ c (touch-Settles engine c.db c refl)) h
          (λ _ d same. subst Property (sym same) h))
        λ _ c₁ h₁.
          bind-Leaves Property Property Property _ _
            (Leaves-of-Settles Property c₁.db _ Property _
              (map_err-Settles c₁.db _ account_error _ c₁ (create_accounts_table-Settles engine c₁))
              h₁ (λ _ d same. subst Property (sym same) (tabled c₁.db h₁)))
            λ _ c₂ h₂.
              bind-Leaves Property Property Property _ _
                (Leaves-of-Settles Property c₂.db _ Property _
                  (map_err-Settles c₂.db _ ledger_error _ c₂
                    (create_ledger_table-Settles engine c₂))
                  h₂ (λ _ d same. subst Property (sym same) (logged c₂.db h₂)))
                λ _ c₃ h₃.
                  ignore_error-Leaves Property _ _ Property _ c₃
                    (save_account-Settles engine now create_seed_account c₃) h₃
                    (λ _ d saved. seeded c₃.db d h₃ saved.1))
