-- ===== src/Auth.antt =====
-- src/auth.rs: access tokens, the auth table of `auth.db3`, and the operations on it.
pub mod Hex
pub mod RoundTrip
pub mod Parse
pub mod Create
pub mod Validate
pub mod Accept
pub mod Issued
pub mod Verdict
use Prim.Native.String.{String}
use capycoin.Base.{
  ℕ, zero, suc, ◌+◌, ◌*◌, ◌≡◌, Bool, true, false, Option, none, some, List, [], ◌∷◌, ◌++◌, ◌==◌,
  ltb, if◌then◌else◌, filter,
}
use capycoin.Sqlite.{
  SqlError, rows_of, and_then, select_from, Table, Engine, Outcome, ok, err, panic, Sql, ◌>>=◌,
  ◌>>◌, pure, throw, from_outcome, map_err, statement, touch, transaction,
}
use capycoin.Database.{Uuid, Time, day}
use Hex.{parse_pairs, hex_pairs, length}

pub data AuthError : Type 0 where
  sql_error : SqlError → AuthError
  token_length_error : AuthError
  -- The kind of the `ParseIntError` is `InvalidDigit` for every pair that is refused.
  token_parse_error : AuthError
  token_crypt_error token_expired token_does_not_exist : AuthError

pub record Token : Type 0 where
  pub bytes : List ℕ

pub record TokenCreatedResult : Type 0 where
  pub token : List ℕ
  pub account_id : Uuid
  pub expiry : Time

-- A row of `auth`, and the database that has the table.
pub record AuthRow : Type 0 where
  pub token_hash : String
  pub account_id : Uuid
  pub expiry : Time

pub record AuthDatabase : Type 0 where
  pub auth : Table AuthRow

-- The code of `bcrypt`: a hash of some bytes, by a salt, may fail; so may a check. What was hashed
-- is verified by its hash.
pub record Bcrypt : Type 0 where
  pub hash : List ℕ → (salt : ℕ) → Option String
  pub verify : List ℕ → String → Option Bool
  pub verifies :
      (bytes : List ℕ) (salt : ℕ) (h : String)
      → hash bytes salt ≡ some h
      → verify bytes h ≡ some true

-- The end of the instants of an `OffsetDateTime`: the start of the year 10000.
abbrev pub time_max : Time
time_max = 7304484 * day

-- `OffsetDateTime + Duration`, which panics past the last instant.
unfoldable pub add_time : {E : Type 0} → Time → Time → Outcome E Time
add_time t d = if ltb (t + d) time_max then ok (t + d) else panic

-- `Token::from_hex_string`, over the bytes of the text.
unfoldable pub from_hex_string : List ℕ → Outcome AuthError Token
from_hex_string s =
    if length s == 256
    then and_then (parse_pairs token_parse_error s) (λ bytes. ok (record { bytes = bytes }))
    else err token_length_error

-- `(0..128).map(|_| rand::random::<u8>())`, from the i-th number that is drawn.
unfoldable pub draw : (ℕ → ℕ) → ℕ → ℕ → List ℕ
draw random i zero = []
draw random i (suc n) = random i ∷ draw random (i + 1) n

-- `Token::new`
unfoldable pub new_token : (ℕ → ℕ) → Token
new_token random = record { bytes = draw random 0 128 }

-- `Display for Token`: two upper-case digits for each byte.
unfoldable pub to_string : Token → List ℕ
to_string t = hex_pairs t.bytes

-- `CREATE TABLE IF NOT EXISTS auth`
abbrev pub create_auth : AuthDatabase → Outcome SqlError (Unit {0} × AuthDatabase)
create_auth d = elim d.auth [ none ↦ ok (tt, record { auth = some [] }) | some rows ↦ ok (tt, d) ]

abbrev pub insert_statement : AuthRow → AuthDatabase → Outcome SqlError (Unit {0} × AuthDatabase)
insert_statement r d =
    and_then (rows_of d.auth) λ rows. ok (tt, record { auth = some (rows ++ r ∷ []) })

-- The `From` for a failure of `bcrypt`.
abbrev pub or_crypt_error : {A : Type 0} → Option A → Outcome AuthError A
or_crypt_error none = err token_crypt_error
or_crypt_error (some a) = ok a

-- A row is the last to be checked if the token fits it.
unfoldable pub judge :
    Bool → Time → Time → Sql AuthDatabase AuthError Bool → Sql AuthDatabase AuthError Bool
judge true now expiry next = if ltb expiry now then throw token_expired else pure true
judge false now expiry next = next

module _ (engine : Engine) where
  unfoldable pub create_auth_table : Sql AuthDatabase AuthError (Unit {0})
  create_auth_table = transaction engine sql_error do
    map_err sql_error (statement engine create_auth)
    map_err sql_error (touch engine)
    map_err sql_error (touch engine)

  module _ (bcrypt : Bcrypt) where
    -- `random` and `salt` are what the generator gives, `now` the time of the call.
    unfoldable pub create_token :
        (ℕ → ℕ) → ℕ → Time → Uuid → Sql AuthDatabase AuthError TokenCreatedResult
    create_token random salt now account_id =
        let token = new_token random in
        transaction engine sql_error do
          expiry ← from_outcome (add_time now (30 * day))
          token_hash ← from_outcome (or_crypt_error (bcrypt.hash token.bytes salt))
          map_err sql_error (
              statement engine (
                insert_statement
                  (record { token_hash = token_hash; account_id = account_id; expiry = expiry })))
          pure (record { token = to_string token; account_id = account_id; expiry = expiry })

    -- The loop of `validate_token` over the rows of the account. `checked` counts the rows that the
    -- token does not fit.
    unfoldable pub check_rows : Time → Token → ℕ → List AuthRow → Sql AuthDatabase AuthError Bool
    check_rows now provided checked [] = do
      map_err sql_error (touch engine)
      if checked == 0 then throw token_does_not_exist else pure false
    check_rows now provided checked (row ∷ rows) = do
      map_err sql_error (touch engine)
      valid ← from_outcome (or_crypt_error (bcrypt.verify provided.bytes row.token_hash))
      judge valid now row.expiry (check_rows now provided (checked + 1) rows)

    -- `now` is the time at which an expiry is compared.
    unfoldable pub validate_token : Time → List ℕ → Uuid → Sql AuthDatabase AuthError Bool
    validate_token now token_str account_id = do
      provided ← from_outcome (from_hex_string token_str)
      map_err sql_error (touch engine)
      rows ←
          map_err sql_error
            (statement engine λ d. select_from (filter (λ r. r.account_id == account_id)) d.auth d)
      check_rows now provided 0 (engine.scan AuthRow rows)
