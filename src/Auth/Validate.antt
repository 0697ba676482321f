-- ===== src/Auth/Validate.antt =====
-- `validate_token` of src/auth.rs: what an answer means.
use mathlib.Core.List.{Mem, mem-cons, not-mem-nil, Perm}
use mathlib.Core.List.Perm
use mathlib.Core.Logic.Or
use mathlib.Core.Path.{subst}
use capycoin.Base.{
  ℕ, ◌+◌, ◌<◌, ◌≤◌, ◌≡◌, refl, Bool, true, false, some, List, [], ◌∷◌, ◌==◌, arith, All, ap, inl,
  inr, Bool-cases, ◌∙◌, sym, filter, mem-filter, ltb, ==_iff,
}
use capycoin.Sqlite.{ok, Engine, Conn, Sql}
use capycoin.Sqlite.Laws.{Settles, Settles-mono, bind-Settles}
use capycoin.Sqlite.Fetch.{
  touch-Settles, map_err-Settles, statement-Settles, from_outcome-Settles, read_table,
  read_table-ne-panic,
}
use capycoin.Database.{Uuid, Time}
use capycoin.Auth.{
  AuthError, Token, AuthRow, AuthDatabase, Bcrypt, sql_error, or_crypt_error, from_hex_string,
  judge, check_rows, validate_token,
}
use capycoin.Auth.Create.{or_crypt_error-ok, or_crypt_error-ne-panic}
use capycoin.Auth.Parse.{from_hex_string-ne-panic}

module _ (bcrypt : Bcrypt) (now : Time) (token : Token) where
  -- The row's hash fits the token, and the row has not expired.
  pub record Accepts (row : AuthRow) : Type 0 where
    pub fits : bcrypt.verify token.bytes row.token_hash ≡ some true
    pub in_time : now ≤ row.expiry

  abbrev pub Refuses : AuthRow → Type 0
  Refuses row = bcrypt.verify token.bytes row.token_hash ≡ some false

  -- What an answer says of the rows that were checked.
  abbrev Decides : Bool → List AuthRow → Type 0
  Decides true rows = (row : AuthRow) × Mem row rows × Accepts row
  Decides false rows = All Refuses rows

  Decides-cons :
      (b : Bool) (row : AuthRow) (rows : List AuthRow)
      → Refuses row
      → Decides b rows
      → Decides b (row ∷ rows)
  Decides-cons true row rows no_fit (found, m, accepts) = (found, mem-cons.1 (Or.inr m), accepts)
  Decides-cons false row rows no_fit h = (no_fit, h)

  module _ (engine : Engine) (before : AuthDatabase) where
    judge-Settles :
        (valid : Bool) (row : AuthRow) (rows : List AuthRow) (c : Conn AuthDatabase)
        (next : Sql AuthDatabase AuthError Bool)
        → c.db ≡ before
        → bcrypt.verify token.bytes row.token_hash ≡ some valid
        → Settles before (λ b d. (d ≡ before) × Decides b rows) (next c)
        → Settles before
            (λ b d. (d ≡ before) × Decides b (row ∷ rows))
            (judge valid now row.expiry next c)
    unfolding judge
    judge-Settles false row rows c next same verified h =
        Settles-mono before _ _ (next c)
          (λ b d (kept, decides). (kept, Decides-cons b row rows verified decides)) h
    judge-Settles true row rows c next same verified h = elim (Bool-cases (ltb row.expiry now)) [
      | inl late ↦ rw late same
      | inr soon ↦ rw soon (
        same,
        (row, mem-cons.1 (Or.inl refl), record { fits = verified; in_time = ground arith }),
      )
    ]

    check_rows-Settles :
        (checked : ℕ) (rows : List AuthRow) (c : Conn AuthDatabase)
        → c.db ≡ before
        → Settles before
            (λ b d. (d ≡ before) × Decides b rows)
            (check_rows engine bcrypt now token checked rows c)
    unfolding check_rows
    check_rows-Settles checked [] c same =
        bind-Settles before (λ _ d. d ≡ before) _ _ _
          (map_err-Settles before _ sql_error _ c (touch-Settles engine before c same))
          (λ _ c' same'. elim (Bool-cases (checked == 0)) [
            | inl unknown ↦ rw unknown same'
            | inr known ↦ rw known (same', tt)
          ])
    check_rows-Settles checked (row ∷ rows) c same =
        bind-Settles before (λ _ d. d ≡ before) _ _ _
          (map_err-Settles before _ sql_error _ c (touch-Settles engine before c same))
          (λ _ c₁ same₁.
            bind-Settles before _ _ _ _
              (from_outcome-Settles before
                (or_crypt_error (bcrypt.verify token.bytes row.token_hash)) c₁ same₁
                (or_crypt_error-ne-panic _))
              (λ valid c₂ (same₂, verified).
                judge-Settles valid row rows c₂
                  (check_rows engine bcrypt now token (checked + 1) rows) same₂
                  (or_crypt_error-ok _ verified) (check_rows-Settles (checked + 1) rows c₂ same₂)))

  All-Refuses :
      (rows : List AuthRow) (row : AuthRow) → All Refuses rows → Mem row rows → Refuses row
  All-Refuses [] row h m = absurd (not-mem-nil m)
  All-Refuses (r ∷ rows) row h m =
      Or.elim (hlevel) (mem-cons.0 m) (λ e. rw e h.0) (λ later. All-Refuses rows row h.1 later)

  -- What an answer says of the table: a token is accepted for a row of the account that its hash fits
  -- and that has not expired, and is refused if it fits no row of the account.
  abbrev pub Means : Bool → Uuid → List AuthRow → Type 0
  Means true account_id rows =
      (row : AuthRow) × Mem row rows × (row.account_id ≡ account_id) × Accepts row
  Means false account_id rows =
      (row : AuthRow) → Mem row rows → row.account_id ≡ account_id → Refuses row

  Decides-Means :
      (b : Bool) (account_id : Uuid) (rows scanned : List AuthRow)
      → Perm scanned (filter (λ r. r.account_id == account_id) rows)
      → Decides b scanned
      → Means b account_id rows
  Decides-Means true account_id rows scanned perm (row, m, accepts) =
      let (in_rows, own) = (mem-filter _ row rows).0 ((Perm.mem_iff perm).0 m) in
      (row, in_rows, (==_iff _ _).0 own, accepts)
  Decides-Means false account_id rows scanned perm h = λ row m own.
      All-Refuses scanned row h
        ((Perm.mem_iff perm).1 ((mem-filter _ row rows).1 (m, (==_iff _ _).1 own)))

-- Whatever calls fail, `validate_token` of a text of ASCII characters changes nothing and does not
-- panic, and an answer means what `Means` says of the table.
pub validate_token-Settles :
    (engine : Engine) (bcrypt : Bcrypt) (now : Time) (token_str : List ℕ) (account_id : Uuid)
    (c : Conn AuthDatabase)
    → All (λ ch. ch < 128) token_str
    → Settles c.db
        (λ b after.
          (after ≡ c.db)
          × ((token : Token) × (rows : List AuthRow) × (from_hex_string token_str ≡ ok token)
              × (c.db.auth ≡ some rows)
              × Means bcrypt now token b account_id rows))
        (validate_token engine bcrypt now token_str account_id c)
unfolding validate_token
validate_token-Settles engine bcrypt now token_str account_id c ascii =
    let own = λ (r : AuthRow). r.account_id == account_id in
    bind-Settles c.db _ _ _ _
      (from_outcome-Settles c.db (from_hex_string token_str) c refl
        (from_hex_string-ne-panic token_str ascii))
      (λ token c₁ (same₁, parsed).
        bind-Settles c.db (λ _ d. d ≡ c.db) _ _ _
          (map_err-Settles c.db _ sql_error _ c₁ (touch-Settles engine c.db c₁ same₁))
          (λ _ c₂ same₂.
            bind-Settles c.db
              (λ res d.
                (d ≡ c.db)
                × ((rows : List AuthRow) × (c.db.auth ≡ some rows) × (res ≡ filter own rows)))
              _ _ _
              (map_err-Settles c.db _ sql_error _ c₂ (
                statement-Settles c.db _ engine _ c₂ same₂
                  (read_table-ne-panic (filter own) c₂.db c₂.db.auth)
                  (λ res d e.
                    let (rows, present, is_own, kept) =
                      read_table (filter own) c₂.db c₂.db.auth res d e in
                    (
                      kept ∙ same₂,
                      (rows, ap (λ (d : AuthDatabase). d.auth) (sym same₂) ∙ present, is_own),
                    ))))
              (λ own_rows c₃ (same₃, (rows, present, is_own)).
                Settles-mono c.db
                  (λ b d. (d ≡ c.db) × Decides bcrypt now token b (engine.scan AuthRow own_rows)) _
                  (check_rows engine bcrypt now token 0 (engine.scan AuthRow own_rows) c₃)
                  (λ b d (kept, decides). (
                    kept,
                    (
                      token,
                      rows,
                      parsed,
                      present,
                      Decides-Means bcrypt now token b account_id rows
                          (engine.scan AuthRow own_rows)
                          (subst (Perm (engine.scan AuthRow own_rows)) is_own
                            (engine.scan_perm AuthRow own_rows))
                          decides,
                    ),
                  ))
                  (check_rows-Settles bcrypt now token engine c.db 0 (engine.scan AuthRow own_rows)
                    c₃ same₃))))
