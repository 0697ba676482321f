-- ===== src/Auth/Verdict.antt =====
-- `validate_token` of src/auth.rs against a description of its result: the first row of the account that
-- is not refused decides.
use capycoin.Base.{
  ℕ, suc, ◌+◌, ◌≡◌, refl, Bool, true, false, Option, none, some, List, [], ◌∷◌, ◌==◌, arith, ap,
  inl, inr, Option-cases, ◌∙◌, filter, ltb, if◌then◌else◌,
}
use capycoin.Sqlite.{Outcome, ok, err, Engine, Conn, select_from, execute}
use capycoin.Sqlite.Quiet.{IsQuiet, touch_ok, from_outcome_ok, statement_ok}
use capycoin.Database.{Uuid, Time}
use capycoin.Auth.{
  AuthError, Token, AuthRow, AuthDatabase, Bcrypt, sql_error, token_crypt_error, token_expired,
  token_does_not_exist, from_hex_string, judge, check_rows, validate_token,
}

-- The first element that passes a test.
abbrev pub find : {A : Type 0} → (A → Bool) → List A → Option A
find p [] = none
find p (x ∷ xs) = if p x then some x else find p xs

module _ (bcrypt : Bcrypt) (now : Time) (token : Token) where
  -- The hash of the row can be checked, and does not fit.
  abbrev pub is_refused : AuthRow → Bool
  is_refused row = elim (bcrypt.verify token.bytes row.token_hash) [
    | none ↦ false
    | some fits ↦ if fits then false else true
  ]

  -- What the first row that is not refused decides.
  abbrev pub decided : AuthRow → Outcome AuthError Bool
  decided row = elim (bcrypt.verify token.bytes row.token_hash) [
    | none ↦ err token_crypt_error
    | some fits ↦ if ltb row.expiry now then err token_expired else ok true
  ]

  abbrev pub verdict_of : List AuthRow → Option AuthRow → Outcome AuthError Bool
  verdict_of [] none = err token_does_not_exist
  verdict_of (row ∷ rows) none = ok false
  verdict_of rows (some row) = decided row

  -- The verdict over the rows of the account, in the order of the scan.
  abbrev pub verdict : List AuthRow → Outcome AuthError Bool
  verdict rows = verdict_of rows (find (λ r. if is_refused r then false else true) rows)

  -- The same, after some rows that were refused.
  abbrev left : ℕ → List AuthRow → Option AuthRow → Outcome AuthError Bool
  left checked rows none = if checked == 0 then verdict_of rows none else ok false
  left checked rows (some row) = decided row

  abbrev first : List AuthRow → Option AuthRow
  first rows = find (λ r. if is_refused r then false else true) rows

  left_later :
      (checked : ℕ) (row : AuthRow) (rows : List AuthRow) (o : Option AuthRow)
      → left (checked + 1) rows o ≡ left checked (row ∷ rows) o
  left_later checked row rows none = ground arith
  left_later checked row rows (some r) = refl

  left_first : (rows : List AuthRow) (o : Option AuthRow) → left 0 rows o ≡ verdict_of rows o
  left_first rows none = refl
  left_first [] (some r) = refl
  left_first (row ∷ rows) (some r) = refl

  module _ (engine : Engine) (quiet : IsQuiet engine) where
    check_rows-left :
        (checked : ℕ) (rows : List AuthRow) (c : Conn AuthDatabase)
        → (check_rows engine bcrypt now token checked rows c).0 ≡ left checked rows (first rows)
    unfolding check_rows judge execute
    check_rows-left checked [] c = ground (arith, quiet c.calls)
    check_rows-left checked (row ∷ rows) c =
        elim (Option-cases (bcrypt.verify token.bytes row.token_hash)) [
          | inl broken ↦
              let stays : is_refused row ≡ false = rw (is_refused, broken) refl in
              let decides : decided row ≡ err token_crypt_error = rw (decided, broken) refl in
              rw (quiet c.calls, broken, stays, decides) refl
          | inr (true, fits) ↦
              let stays : is_refused row ≡ false = rw (is_refused, fits) refl in
              let decides : decided row
                  ≡ (if ltb row.expiry now then err token_expired else ok true) =
                rw (decided, fits) refl in
              rw (quiet c.calls, fits, stays, decides) (ground arith)
          | inr (false, refused) ↦
              let passes : is_refused row ≡ true = rw (is_refused, refused) refl in
              rw (quiet c.calls, refused, passes)
                (check_rows-left (checked + 1) rows (record c { calls = suc c.calls })
                  ∙ left_later checked row rows (first rows))
        ]

-- The rows of an account in the order in which they are scanned.
abbrev pub rows_for : Engine → Uuid → List AuthRow → List AuthRow
rows_for engine account_id rows =
    engine.scan AuthRow (filter (λ r. r.account_id == account_id) rows)

-- When no call fails, the result of `validate_token` for a text that is a token is that of the
-- description (`verdict`): of the rows of the account, in the order in which they are scanned, the first one
-- decides that is not refused, as its hash does not fit. It is an error of `bcrypt` if its hash cannot be
-- checked, `TokenExpired` if it has expired, and `true` otherwise. Without such a row the result is
-- `false`, or `TokenDoesNotExist` if the account has no row.
pub validate_token-verdict :
    (engine : Engine) (bcrypt : Bcrypt) (now : Time) (token_str : List ℕ) (account_id : Uuid)
    (c : Conn AuthDatabase) (token : Token) (rows : List AuthRow)
    → IsQuiet engine
    → from_hex_string token_str ≡ ok token
    → c.db.auth ≡ some rows
    → (validate_token engine bcrypt now token_str account_id c).0
      ≡ verdict bcrypt now token (rows_for engine account_id rows)
unfolding validate_token
validate_token-verdict engine bcrypt now token_str account_id c token rows quiet parsed present =
    let mine = λ (r : AuthRow). r.account_id == account_id in
    let scanned = rows_for engine account_id rows in
    ap (λ x. x.0)
      (from_outcome_ok c _ parsed
        ∙ touch_ok engine quiet sql_error c _
        ∙ statement_ok engine quiet sql_error _ (record c { calls = suc c.calls }) _
            (ap (λ t. select_from (filter mine) t c.db) present))
    ∙ check_rows-left bcrypt now token engine quiet 0 scanned _
    ∙ left_first bcrypt now token scanned (first bcrypt now token scanned)
