-- ===== src/Suite/Auth/Verified.antt =====
-- The tests of src/auth.rs pass.
use Prim.Native.String.{String}
use capycoin.Base.{
  ℕ, suc, ◌+◌, ◌-◌, ◌*◌, ◌<◌, ◌≤◌, ◌≡◌, ◌≢◌, refl, true, false, some, List, [], ◌∷◌, ◌++◌, ◌==◌,
  ltb, length, arith, ==_ne, ==_iff, ◌∙◌,
}
use capycoin.Sqlite.{ok, err, Conn, execute}
use capycoin.Database.{Uuid, Time, day}
use capycoin.Auth.{
  AuthRow, AuthDatabase, Bcrypt, TokenCreatedResult, token_does_not_exist, time_max, add_time,
  new_token, to_string, from_hex_string, create_auth_table, create_token, draw, validate_token,
  check_rows, judge,
}
use capycoin.Auth.Hex.{parse_pairs, hex_digit, from_str_radix}
use capycoin.Auth.RoundTrip.{length-hex_pairs, from_hex_string-to_string}
use capycoin.Auth.Issued.{length-draw, draw-All}
use capycoin.Suite.{memory, unwrap, expect_err, PassesFrom}
use capycoin.Suite.Auth.{
  auth_in_memory, same_bytes, test_token_new, test_token_to_string, test_token_from_string,
  test_token_from_string_invalid_length, test_token_from_string_invalid_encoding, test_create_token,
  test_validate_token, test_validate_token_expired,
}

-- What the tests rely on: the ids are distinct, the time goes on and less than a day passes, a token's bytes
-- are bytes, the two tokens differ, and `bcrypt` can hash them and does not confuse them.
pub record Surroundings (bcrypt : Bcrypt) (random : ℕ → ℕ → ℕ) (salt : ℕ → ℕ) (ids : ℕ → Uuid)
    (clock : ℕ → Time) (hash : ℕ → String) : Type 0 where
  pub distinct : (i j : ℕ) → ids i ≡ ids j → i ≡ j
  pub ticks : (i j : ℕ) → i < j → clock i < clock j
  pub soon : clock 4 < clock 0 + day
  pub in_range : clock 4 + 30 * day < time_max
  pub not_first_day : day ≤ clock 0
  pub bytes : (i j : ℕ) → random i j < 256
  pub differ : random 0 0 ≢ random 1 0
  pub hashed : (i : ℕ) → bcrypt.hash (new_token (random i)).bytes (salt i) ≡ some (hash i)
  pub no_fit : bcrypt.verify (new_token (random 1)).bytes (hash 0) ≡ some false

same_bytes_refl : (s : List ℕ) → same_bytes s s ≡ true
same_bytes_refl [] = refl
same_bytes_refl (a ∷ s) = ground (arith, same_bytes_refl s)

module _ (bcrypt : Bcrypt) (random : ℕ → ℕ → ℕ) (salt : ℕ → ℕ) (ids : ℕ → Uuid) (clock : ℕ → Time)
    (hash : ℕ → String) (env : Surroundings bcrypt random salt ids clock hash) where
  parsed : (i : ℕ) → from_hex_string (to_string (new_token (random i))) ≡ ok (new_token (random i))
  unfolding new_token
  parsed i =
      from_hex_string-to_string (new_token (random i)) (length-draw (random i) 0 128)
        (draw-All (random i) (env.bytes i) 0 128)

  text_length : (i : ℕ) → length (to_string (new_token (random i))) ≡ 256
  unfolding to_string new_token
  text_length i =
      let n = length-draw (random i) 0 128 in
      length-hex_pairs (new_token (random i)).bytes ∙ omega (arith, n)

  abbrev row : ℕ → Uuid → Time → AuthRow
  row i id now = record { token_hash = hash i; account_id = id; expiry = now + 30 * day }

  abbrev result : ℕ → Uuid → Time → TokenCreatedResult
  result i id now = record {
    token = to_string (new_token (random i));
    account_id = id;
    expiry = now + 30 * day;
  }

  abbrev table : List AuthRow → ℕ → Conn AuthDatabase
  table rows calls = record { db = record { auth = some rows }; calls = calls }

  created :
      (i : ℕ) (id : Uuid) (now : Time) (rows : List AuthRow) (n : ℕ)
      → now ≤ clock 4
      → create_token memory bcrypt (random i) (salt i) now id (table rows n)
        ≡ (ok (result i id now), table (rows ++ row i id now ∷ []) (suc (suc (suc n))))
  unfolding execute create_token add_time
  created i id now rows n below =
      let fits : ltb (now + 30 * day) time_max ≡ true = let h = env.in_range in ground arith in
      rw (fits, env.hashed i) refl

  own_fits : (i : ℕ) → bcrypt.verify (new_token (random i)).bytes (hash i) ≡ some true
  own_fits i = bcrypt.verifies (new_token (random i)).bytes (salt i) (hash i) (env.hashed i)

  self : (i : ℕ) → (ids i == ids i) ≡ true
  self i = (==_iff (ids i) (ids i)).1 refl

  different : (i j : ℕ) → i ≢ j → (ids i == ids j) ≡ false
  different i j ne = ==_ne (ids i) (ids j) (λ e. ne (env.distinct i j e))

  abbrev first : AuthRow
  first = row 0 (ids 0) (clock 0)

  accepted :
      validate_token memory bcrypt
        (clock 1)
        (to_string (new_token (random 0)))
        (ids 0)
        (table (first ∷ []) 8)
      ≡ (ok true, table (first ∷ []) 11)
  unfolding execute validate_token check_rows judge
  accepted =
      let in_time : ltb (clock 0 + 30 * day) (clock 1) ≡ false =
        let h = env.soon in let k = env.ticks 1 4 (omega arith) in ground arith in
      rw (parsed 0, self 0, own_fits 0, in_time) refl

  unknown :
      validate_token memory bcrypt
        (clock 2)
        (to_string (new_token (random 0)))
        (ids 1)
        (table (first ∷ []) 11)
      ≡ (err token_does_not_exist, table (first ∷ []) 14)
  unfolding execute validate_token check_rows judge
  unknown = rw (parsed 0, different 0 1 (λ e. omega arith)) refl

  abbrev second : AuthRow
  second = row 1 (ids 2) (clock 3)

  refused :
      (n : ℕ)
      → validate_token memory bcrypt
          (clock 4)
          (to_string (new_token (random 1)))
          (ids 0)
          (table (first ∷ second ∷ []) n)
        ≡ (ok false, table (first ∷ second ∷ []) (suc (suc (suc (suc n)))))
  unfolding execute validate_token check_rows judge
  refused n = rw (parsed 1, self 0, different 2 0 (λ e. omega arith), env.no_fit) refl

  tabled : create_auth_table memory auth_in_memory ≡ (ok tt, table [] 5)
  unfolding execute create_auth_table
  tabled = refl

  test_token_new-Passes : PassesFrom auth_in_memory (test_token_new bcrypt random salt ids clock)
  unfolding execute test_token_new new_token draw
  test_token_new-Passes = (tt, rw (==_ne (random 0 0) (random 1 0) env.differ) refl)

  test_token_to_string-Passes :
      PassesFrom auth_in_memory (test_token_to_string bcrypt random salt ids clock)
  unfolding execute test_token_to_string
  test_token_to_string-Passes = (tt, rw (text_length 0) refl)

  test_token_from_string-Passes :
      PassesFrom auth_in_memory (test_token_from_string bcrypt random salt ids clock)
  unfolding execute test_token_from_string unwrap
  test_token_from_string-Passes =
      (tt, rw (parsed 0, same_bytes_refl (new_token (random 0)).bytes) refl)

  test_token_from_string_invalid_length-Passes :
      PassesFrom auth_in_memory (test_token_from_string_invalid_length bcrypt random salt ids clock)
  unfolding execute test_token_from_string_invalid_length from_hex_string expect_err
  test_token_from_string_invalid_length-Passes = (tt, refl)

  test_token_from_string_invalid_encoding-Passes :
      PassesFrom auth_in_memory
        (test_token_from_string_invalid_encoding bcrypt random salt ids clock)
  unfolding execute test_token_from_string_invalid_encoding from_hex_string parse_pairs hex_digit
      from_str_radix expect_err
  test_token_from_string_invalid_encoding-Passes = (tt, refl)

  test_create_token-Passes :
      PassesFrom auth_in_memory (test_create_token bcrypt random salt ids clock)
  unfolding execute test_create_token unwrap
  test_create_token-Passes =
      let later : ltb (clock 1 + 29 * day) (clock 0 + 30 * day) ≡ true =
        let h = env.soon in let k = env.ticks 1 4 (omega arith) in ground arith in
      let before = env.ticks 0 4 (omega arith) in
      (
        tt,
        rw (tabled, created 0 (ids 0) (clock 0) [] 5 (omega arith), self 0, text_length 0, later)
            refl,
      )

  test_validate_token-Passes :
      PassesFrom auth_in_memory (test_validate_token bcrypt random salt ids clock)
  unfolding execute test_validate_token unwrap expect_err
  test_validate_token-Passes =
      let before = env.ticks 0 4 (omega arith) in
      let before' = env.ticks 3 4 (omega arith) in
      (
        tt,
        rw
            (
              tabled,
              created 0 (ids 0) (clock 0) [] 5 (omega arith),
              accepted,
              unknown,
              created 1 (ids 2) (clock 3) (first ∷ []) 14 (omega arith),
              refused 17,
            )
            refl,
      )

  test_validate_token_expired-Passes :
      PassesFrom auth_in_memory (test_validate_token_expired bcrypt random salt ids clock (hash 0))
  unfolding execute test_validate_token_expired validate_token check_rows judge unwrap expect_err
  test_validate_token_expired-Passes =
      let late : ltb (clock 0 - day) (clock 1) ≡ true =
        let h = env.not_first_day in let k = env.ticks 0 1 (omega arith) in ground arith in
      (tt, rw (tabled, parsed 0, self 0, own_fits 0, late) refl)

-- Every test passes.
abbrev pub AuthSuite :
    Bcrypt → (ℕ → ℕ → ℕ) → (ℕ → ℕ) → (ℕ → Uuid) → (ℕ → Time) → (ℕ → String) → Type 0
AuthSuite bcrypt random salt ids clock hash =
    PassesFrom auth_in_memory (test_token_new bcrypt random salt ids clock)
    × PassesFrom auth_in_memory (test_token_to_string bcrypt random salt ids clock)
    × PassesFrom auth_in_memory (test_token_from_string bcrypt random salt ids clock)
    × PassesFrom auth_in_memory (test_token_from_string_invalid_length bcrypt random salt ids clock)
    × PassesFrom auth_in_memory
        (test_token_from_string_invalid_encoding bcrypt random salt ids clock)
    × PassesFrom auth_in_memory (test_create_token bcrypt random salt ids clock)
    × PassesFrom auth_in_memory (test_validate_token bcrypt random salt ids clock)
    × PassesFrom auth_in_memory (test_validate_token_expired bcrypt random salt ids clock (hash 0))

-- Each test of src/auth.rs passes with a database that fails no call, under what the tests rely on
-- (`Surroundings`): distinct ids, times that go on for less than a day, two tokens that differ, and a
-- `bcrypt` that hashes them and does not take the one for the other.
pub auth_tests-Pass :
    (bcrypt : Bcrypt) (random : ℕ → ℕ → ℕ) (salt : ℕ → ℕ) (ids : ℕ → Uuid) (clock : ℕ → Time)
    (hash : ℕ → String)
    → Surroundings bcrypt random salt ids clock hash
    → AuthSuite bcrypt random salt ids clock hash
auth_tests-Pass bcrypt random salt ids clock hash env = (
  test_token_new-Passes bcrypt random salt ids clock hash env,
  test_token_to_string-Passes bcrypt random salt ids clock hash env,
  test_token_from_string-Passes bcrypt random salt ids clock hash env,
  test_token_from_string_invalid_length-Passes bcrypt random salt ids clock hash env,
  test_token_from_string_invalid_encoding-Passes bcrypt random salt ids clock hash env,
  test_create_token-Passes bcrypt random salt ids clock hash env,
  test_validate_token-Passes bcrypt random salt ids clock hash env,
  test_validate_token_expired-Passes bcrypt random salt ids clock hash env,
)
