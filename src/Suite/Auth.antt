-- ===== src/Suite/Auth.antt =====
-- The tests of src/auth.rs.
pub mod Verified
use Prim.Native.String.{String}
use capycoin.Base.{
  ℕ, zero, suc, ◌+◌, ◌-◌, ◌*◌, ◌<◌, ◌≤◌, ◌≡◌, ◌≢◌, refl, Bool, true, false, Option, none, some,
  List, [], ◌∷◌, ◌++◌, ◌==◌, ◌&&◌, not, ltb, length, if◌then◌else◌,
}
use capycoin.Sqlite.{
  unwrapped, Outcome, ok, err, panic, Conn, Sql, ◌>>=◌, ◌>>◌, pure, assert, from_outcome, map_err,
  statement,
}
use capycoin.Database.{Uuid, Time, day}
use capycoin.Auth.{
  AuthError, Token, AuthRow, AuthDatabase, Bcrypt, token_length_error, token_parse_error,
  token_expired, token_does_not_exist, new_token, to_string, from_hex_string, create_auth_table,
  create_token, validate_token, insert_statement,
}
use capycoin.Suite.{memory, error_of, unwrap, expect_err}

-- A test on the database of tokens.
abbrev pub AuthTest : Type 0
AuthTest = Sql AuthDatabase ⊥ (Unit {0})

abbrev pub auth_in_memory : Conn AuthDatabase
auth_in_memory = record { db = record { auth = none }; calls = 0 }

-- `#[derive(PartialEq)]` on tokens, and on the results that the tests expect.
abbrev pub same_bytes : List ℕ → List ℕ → Bool
same_bytes [] [] = true
same_bytes (a ∷ s) (b ∷ t) = (a == b) && same_bytes s t
same_bytes _ _ = false

abbrev pub same_error : AuthError → AuthError → Bool
same_error token_length_error token_length_error = true
same_error token_parse_error token_parse_error = true
same_error token_expired token_expired = true
same_error token_does_not_exist token_does_not_exist = true
same_error _ _ = false

abbrev pub repeat : ℕ → ℕ → List ℕ
repeat zero b = []
repeat (suc n) b = b ∷ repeat n b

-- "BLAHBLAH", and a text of hexadecimal digits but for the last character.
abbrev pub blah : List ℕ
blah = b'B' ∷ b'L' ∷ b'A' ∷ b'H' ∷ b'B' ∷ b'L' ∷ b'A' ∷ b'H' ∷ []

abbrev pub no_digits : List ℕ
no_digits = repeat 255 b'A' ++ b'X' ∷ []

-- The i-th token of a test draws its bytes from `random i` and is hashed with `salt i`; `ids` and `clock`
-- give the ids and the times.
module _ (bcrypt : Bcrypt) (random : ℕ → ℕ → ℕ) (salt : ℕ → ℕ) (ids : ℕ → Uuid)
    (clock : ℕ → Time) where
  unfoldable pub test_token_new : AuthTest
  test_token_new =
      let t1 = new_token (random 0) in
      let t2 = new_token (random 1) in
      do assert (length t1.bytes == 128); assert (not (same_bytes t1.bytes t2.bytes))

  unfoldable pub test_token_to_string : AuthTest
  test_token_to_string = assert (length (to_string (new_token (random 0))) == 256)

  unfoldable pub test_token_from_string : AuthTest
  test_token_from_string =
      let t = new_token (random 0) in
      do
        t2 ← unwrap (from_outcome (from_hex_string (to_string t)))
        assert (same_bytes t.bytes t2.bytes)

  unfoldable pub test_token_from_string_invalid_length : AuthTest
  test_token_from_string_invalid_length = do
    e ← expect_err (from_outcome (from_hex_string blah))
    assert (same_error e token_length_error)

  unfoldable pub test_token_from_string_invalid_encoding : AuthTest
  test_token_from_string_invalid_encoding = do
    e ← expect_err (from_outcome (from_hex_string no_digits))
    assert (same_error e token_parse_error)

  unfoldable pub test_create_token : AuthTest
  test_create_token = do
    unwrap (create_auth_table memory)
    tok ← unwrap (create_token memory bcrypt (random 0) (salt 0) (clock 0) (ids 0))
    assert (tok.account_id == ids 0)
    assert (length tok.token == 256)
    assert (ltb (clock 1 + 29 * day) tok.expiry)

  unfoldable pub test_validate_token : AuthTest
  test_validate_token = do
    unwrap (create_auth_table memory)
    valid_token ← unwrap (create_token memory bcrypt (random 0) (salt 0) (clock 0) (ids 0))
    res ← unwrap (validate_token memory bcrypt (clock 1) valid_token.token valid_token.account_id)
    assert res
    e ← expect_err (validate_token memory bcrypt (clock 2) valid_token.token (ids 1))
    assert (same_error e token_does_not_exist)
    new_token ← unwrap (create_token memory bcrypt (random 1) (salt 1) (clock 3) (ids 2))
    other ← unwrap (validate_token memory bcrypt (clock 4) new_token.token (ids 0))
    assert (not other)

  -- The hash of the token is given.
  unfoldable pub test_validate_token_expired : String → AuthTest
  test_validate_token_expired token_hash = do
    unwrap (create_auth_table memory)
    unwrap (
        statement memory (
          insert_statement
            (record { token_hash = token_hash; account_id = ids 0; expiry = clock 0 - day })))
    e ←
        expect_err
          (validate_token memory bcrypt (clock 1) (to_string (new_token (random 0))) (ids 0))
    assert (same_error e token_expired)
