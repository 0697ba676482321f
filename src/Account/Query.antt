-- ===== src/Account/Query.antt =====
-- `get_accounts` and `load_account` of src/account.rs.
use mathlib.Core.List.{Perm}
use mathlib.Core.Path.{ap₂, subst}
use capycoin.Base.{
  ◌≡◌, refl, ◌≢◌, inl, inr, some, List, [], ◌∷◌, arith, Option-cases, ◌∙◌, sym, ap, map,
}
use capycoin.Sqlite.{Engine, Conn, ok, panic, fetch}
use capycoin.Sqlite.Laws.{Settles, Settles-mono, bind-Settles}
use capycoin.Sqlite.Fetch.{
  statement-Settles, map_err-Settles, touch-Settles, fetch-Settles, read_table, read_table-ne-panic,
}
use capycoin.Database.{Uuid, AccountRow, Database}
use capycoin.Account.Table.{find_account}
use capycoin.Account.{
  Account, row_of, read_account, sql_error, load_error, load_statement, load_account, get_accounts,
}

read_account-ok : (r : AccountRow) (a : Account) → read_account r ≡ ok a → row_of a ≡ r
read_account-ok r a h = ground arith

read_account-ne-panic : (r : AccountRow) → read_account r ≢ panic
read_account-ne-panic r h = ground arith

read_accounts-ok :
    (rows : List AccountRow) (res : List Account)
    → map read_account rows ≡ map (λ a. ok a) res
    → map row_of res ≡ rows
read_accounts-ok [] [] e = refl
read_accounts-ok [] (a ∷ res) e = cc
read_accounts-ok (r ∷ rows) [] e = cc
read_accounts-ok (r ∷ rows) (a ∷ res) e =
    ap₂ ◌∷◌ (read_account-ok r a (cc)) (read_accounts-ok rows res (cc))

-- Whatever calls fail, `get_accounts` changes nothing, and when it succeeds it returns every account
-- once, in some order.
pub get_accounts-Settles :
    (engine : Engine) (c : Conn Database)
    → Settles c.db
        (λ res after.
          (after ≡ c.db)
          × ((rows : List AccountRow) × (c.db.accounts ≡ some rows) × Perm (map row_of res) rows))
        (get_accounts engine c)
unfolding get_accounts
get_accounts-Settles engine c = map_err-Settles c.db _ sql_error _ c (
    bind-Settles c.db (λ _ d. d ≡ c.db) _ _ _ (touch-Settles engine c.db c refl)
      (λ _ c₁ same₁.
        bind-Settles c.db (λ rows d. (d ≡ c.db) × (c.db.accounts ≡ some rows)) _ _ _
          (statement-Settles c.db _ engine _ c₁ same₁
            (read_table-ne-panic (λ rows. rows) c₁.db c₁.db.accounts)
            (λ res d e.
              let (rows, present, is_all, kept) =
                read_table (λ rows. rows) c₁.db c₁.db.accounts res d e in
              (
                kept ∙ same₁,
                ap (λ (d : Database). d.accounts) (sym same₁)
                    ∙ present
                    ∙ ap (λ l. some l) (sym is_all),
              )))
          (λ rows c₂ (same₂, present).
            Settles-mono c.db _ _ (fetch engine read_account (engine.scan AccountRow rows) c₂)
              (λ res _ (kept, are). (
                kept,
                (
                  rows,
                  present,
                  subst (λ l. Perm l rows)
                      (sym (read_accounts-ok (engine.scan AccountRow rows) res are))
                      (engine.scan_perm AccountRow rows),
                ),
              ))
              (fetch-Settles engine c.db read_account (engine.scan AccountRow rows) c₂
                read_account-ne-panic same₂))))

load_statement-ne-panic : (id : Uuid) (d : Database) → load_statement id d ≢ panic
load_statement-ne-panic id d h = ground arith

load_statement-found :
    (id : Uuid) (d : Database) (a : Account) (d' : Database)
    → load_statement id d ≡ ok (a, d')
    → (d' ≡ d)
      × ((rows : List AccountRow) × (d.accounts ≡ some rows)
          × (find_account id rows ≡ some (row_of a)))
load_statement-found id d a d' h = elim (Option-cases d.accounts) [
  | inl missing ↦ ground arith
  | inr (rows, present) ↦ (ground arith, (rows, present, ground arith))
]

-- Whatever calls fail, `load_account` changes nothing, and an account that it returns is the row of
-- its key.
pub load_account-Settles :
    (engine : Engine) (id : Uuid) (c : Conn Database)
    → Settles c.db
        (λ a after.
          (after ≡ c.db)
          × ((rows : List AccountRow) × (c.db.accounts ≡ some rows)
              × (find_account id rows ≡ some (row_of a))))
        (load_account engine id c)
unfolding load_account
load_account-Settles engine id c = map_err-Settles c.db _ load_error _ c (
    statement-Settles c.db _ engine (load_statement id) c refl (load_statement-ne-panic id c.db)
      (load_statement-found id c.db))
