-- ===== src/Auth/Accept.antt =====
-- `validate_token` of src/auth.rs accepts a token that is good, when no call fails, in whatever order
-- the rows come.
use mathlib.Core.List.{Mem, mem-cons, not-mem-nil}
use mathlib.Core.List.Perm
use mathlib.Core.Logic.Or
use native.Mathlib.Nat.{ℕ_set}
use capycoin.Base.{
  ℕ, suc, ◌+◌, ◌≤◌, ◌≡◌, ◌≢◌, refl, Bool, true, false, none, some, List, [], ◌∷◌, ◌==◌, arith, ap,
  inl, inr, Option-cases, ◌∙◌, filter, mem-filter, ==_iff,
}
use capycoin.Sqlite.{Outcome, ok, Engine, Conn, Sql, select_from}
use capycoin.Sqlite.Quiet.{IsQuiet, touch_ok, from_outcome_ok, statement_ok}
use capycoin.Database.{Uuid, Time}
use capycoin.Auth.{
  AuthError, Token, AuthRow, AuthDatabase, Bcrypt, sql_error, from_hex_string, judge, check_rows,
  validate_token,
}

module _ (engine : Engine) (bcrypt : Bcrypt) (now : Time) (token : Token)
    (quiet : IsQuiet engine) where
  -- A row that does not stand in the way: the hash can be checked, and if it fits, the row has not
  -- expired.
  abbrev pub IsFair : AuthRow → Type 0
  IsFair row =
      (bcrypt.verify token.bytes row.token_hash ≢ none)
      × (bcrypt.verify token.bytes row.token_hash ≡ some true → now ≤ row.expiry)

  answer-prop : (r : Outcome AuthError Bool) → IsProp (r ≡ ok true)
  answer-prop r = hlevel ℕ_set

  check_row :
      (checked : ℕ) (row : AuthRow) (rows : List AuthRow) (c : Conn AuthDatabase) (valid : Bool)
      → bcrypt.verify token.bytes row.token_hash ≡ some valid
      → check_rows engine bcrypt now token checked (row ∷ rows) c
        ≡ judge valid now row.expiry
            (check_rows engine bcrypt now token (checked + 1) rows)
            (record c { calls = suc c.calls })
  unfolding check_rows
  check_row checked row rows c valid verified =
      touch_ok engine quiet sql_error c _
      ∙ from_outcome_ok (record c { calls = suc c.calls }) _ (rw verified)

  judge_fits :
      (row : AuthRow) (next : Sql AuthDatabase AuthError Bool) (c : Conn AuthDatabase)
      → now ≤ row.expiry
      → (judge true now row.expiry next c).0 ≡ ok true
  unfolding judge
  judge_fits row next c in_time = ground arith

  check_rows_accepts :
      (checked : ℕ) (rows : List AuthRow) (row : AuthRow) (c : Conn AuthDatabase)
      → Mem row rows
      → bcrypt.verify token.bytes row.token_hash ≡ some true
      → ((r : AuthRow) → Mem r rows → IsFair r)
      → (check_rows engine bcrypt now token checked rows c).0 ≡ ok true
  unfolding judge
  check_rows_accepts checked [] row c m fits fair = absurd (not-mem-nil m)
  check_rows_accepts checked (r ∷ rows) row c m fits fair =
      elim (Option-cases (bcrypt.verify token.bytes r.token_hash)) [
        | inl broken ↦ absurd ((fair r (mem-cons.1 (Or.inl refl))).0 broken)
        | inr (true, good) ↦
            ap (λ x. x.0) (check_row checked r rows c true good)
            ∙ judge_fits r (check_rows engine bcrypt now token (checked + 1) rows) _
                ((fair r (mem-cons.1 (Or.inl refl))).1 good)
        | inr (false, bad) ↦
            ap (λ x. x.0) (check_row checked r rows c false bad)
            ∙ Or.elim (answer-prop _) (mem-cons.0 m)
                (λ e.
                  cc (ap (λ (r : AuthRow). bcrypt.verify token.bytes r.token_hash) e, fits, bad))
                (λ later.
                  check_rows_accepts (checked + 1) rows row (record c { calls = suc c.calls }) later
                    fits (λ q m'. fair q (mem-cons.1 (Or.inr m'))))
      ]

-- When no call fails, a token is accepted if it fits a row of the account, every hash of the account
-- can be checked, and no row of the account that the token fits has expired.
pub validate_token_accepts :
    (engine : Engine) (bcrypt : Bcrypt) (now : Time) (token_str : List ℕ) (account_id : Uuid)
    (c : Conn AuthDatabase) (token : Token) (rows : List AuthRow) (row : AuthRow)
    → IsQuiet engine
    → from_hex_string token_str ≡ ok token
    → c.db.auth ≡ some rows
    → Mem row rows
    → row.account_id ≡ account_id
    → bcrypt.verify token.bytes row.token_hash ≡ some true
    → ((r : AuthRow)
        → Mem r rows
        → r.account_id ≡ account_id
        → (bcrypt.verify token.bytes r.token_hash ≢ none)
          × (bcrypt.verify token.bytes r.token_hash ≡ some true → now ≤ r.expiry))
    → (validate_token engine bcrypt now token_str account_id c).0 ≡ ok true
unfolding validate_token
validate_token_accepts engine bcrypt now token_str account_id c token rows row quiet parsed present
      m own fits fair =
    let mine = λ (r : AuthRow). r.account_id == account_id in
    let scanned = engine.scan AuthRow (filter mine rows) in
    let perm = engine.scan_perm AuthRow (filter mine rows) in
    ap (λ x. x.0)
      (from_outcome_ok c _ parsed
        ∙ touch_ok engine quiet sql_error c _
        ∙ statement_ok engine quiet sql_error _ (record c { calls = suc c.calls }) _
            (ap (λ t. select_from (filter mine) t c.db) present))
    ∙ check_rows_accepts engine bcrypt now token quiet 0 scanned row _
        ((Perm.mem_iff perm).1 ((mem-filter mine row rows).1 (m, (==_iff _ _).1 own))) fits
        (λ r m'.
          let (in_rows, is_own) = (mem-filter mine r rows).0 ((Perm.mem_iff perm).0 m') in
          fair r in_rows ((==_iff _ _).0 is_own))
