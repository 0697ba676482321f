-- ===== src/Account/Save.antt =====
-- What `save_account` and `load_account` of src/account.rs do on every branch.
use capycoin.Base.{
  ℕ, suc, ◌≡◌, refl, ◌≢◌, inl, inr, none, some, List, [], ◌∷◌, ◌++◌, arith, if◌then◌else◌, is_some,
  Option-cases, ◌||◌,
}
use mathlib.Core.Path.{subst}
use capycoin.Base.Int.{pos, ◌≤ℤ◌, ltb_ℤ}
use capycoin.Sqlite.{ok, err, panic, Conn, Engine, execute}
use capycoin.Sqlite.Laws.{Settles, Settles-ok, transaction-Settles, bind-Settles, statement-Ensures}
use capycoin.Database.{Uuid, Time, AccountRow, Database}
use capycoin.Account.Table.{find_account, insert_account}
use capycoin.Account.Sound.{find_account-append}
use capycoin.Account.{
  Account, AccountCreatedResult, account_already_exists, row_of, insert_error, insert_statement,
  save_account, load_account, sql_error,
}

-- What a successful INSERT did: there was a table without the key, the funds are not negative, and
-- the table has the row at its end; the ledger's table is as it was.
pub record Inserted (a : Account) (before after : Database) : Type 0 where
  pub rows : List AccountRow
  pub was : before.accounts ≡ some rows
  pub is_new : find_account a.account_id rows ≡ none
  pub funded : pos 0 ≤ℤ a.funds
  pub added : after.accounts ≡ some (rows ++ row_of a ∷ [])
  pub kept : after.transactions ≡ before.transactions

insert_statement-Inserted :
    (a : Account) (before after : Database)
    → insert_statement a before ≡ ok (tt, after)
    → Inserted a before after
unfolding insert_account
insert_statement-Inserted a before after h = elim (Option-cases before.accounts) [
  | inl missing ↦ ground arith
  | inr (rows, present) ↦ record {
    rows = rows;
    was = present;
    is_new = ground arith;
    funded = ground arith;
    added = ground arith;
    kept = ground arith;
  }
]

insert_statement-ne-panic : (a : Account) (d : Database) → insert_statement a d ≢ panic
unfolding insert_account
insert_statement-ne-panic a d h = ground arith

-- Whatever calls fail, `save_account` either has inserted exactly the new row and returns its key
-- and the time, or it returns an error and the database is as it was; it does not panic.
pub save_account-Settles :
    (engine : Engine) (now : Time) (a : Account) (c : Conn Database)
    → Settles c.db
        (λ res after.
          (res ≡ record { account_id = a.account_id; timestamp = now }) × Inserted a c.db after)
        (save_account engine now a c)
unfolding save_account
save_account-Settles engine now a c =
    bind-Settles c.db (λ _ after. Inserted a c.db after) _ _ _
      (transaction-Settles engine (λ _ after. Inserted a c.db after) sql_error _ c
        (λ begun same.
          statement-Ensures engine (λ _ after. Inserted a c.db after) insert_error
            (insert_statement a) begun (insert_statement-ne-panic a begun.db)
            (λ _ after e.
              subst (λ d. Inserted a d after) same (insert_statement-Inserted a begun.db after e))))
      (λ _ _ i. (refl, i))

pub save_account_ok :
    (engine : Engine) (now : Time) (a : Account) (c : Conn Database) {res : AccountCreatedResult}
    {c' : Conn Database}
    → save_account engine now a c ≡ (ok res, c')
    → (res ≡ record { account_id = a.account_id; timestamp = now }) × Inserted a c.db c'.db
save_account_ok engine now a c saved =
    Settles-ok c.db _ _ (save_account-Settles engine now a c) saved

-- With no fault `save_account` succeeds, unless the key is taken or the funds are negative: both
-- violate a constraint and are reported as `AccountAlreadyExists`.
pub save_account_sound :
    (engine : Engine) (now : Time) (a : Account) (c : Conn Database) (rows : List AccountRow)
    → ((n : ℕ) → engine.fault n ≡ none)
    → c.db.accounts ≡ some rows
    → (save_account engine now a c).0 ≡ (
        if is_some (find_account a.account_id rows) || ltb_ℤ a.funds (pos 0)
        then err account_already_exists
        else ok (record { account_id = a.account_id; timestamp = now }))
unfolding execute save_account insert_account
save_account_sound engine now a c rows quiet present =
    ground (arith, quiet c.calls, quiet (suc c.calls), quiet (suc (suc c.calls)))

-- An account that was saved is loaded as it was saved, and a load of any other account gives what it
-- would have given before, by calls that do not fail.
pub load_account-save_account :
    (engine : Engine) (now : Time) (a : Account) (c c' : Conn Database) {res : AccountCreatedResult}
    → save_account engine now a c ≡ (ok res, c')
    → engine.fault c'.calls ≡ none
    → ((load_account engine a.account_id c').0 ≡ ok a)
      × ((id : Uuid)
          → id ≢ a.account_id
          → (load_account engine id c').0
            ≡ (load_account engine id (record c { calls = c'.calls })).0)
unfolding execute load_account
load_account-save_account engine now a c c' {res} saved quiet =
    let i = (save_account_ok engine now a c saved).1 in
    (
      ground (arith, i.added, find_account-append a.account_id i.rows (row_of a), i.is_new, quiet),
      λ id other. elim (Option-cases (find_account id i.rows)) [
        | inl missing ↦
            ground (arith, i.added, i.was, find_account-append id i.rows (row_of a), missing, quiet)
        | inr (row, found) ↦
            ground (arith, i.added, i.was, find_account-append id i.rows (row_of a), found, quiet)
      ],
    )
