-- ===== src/Auth/Parse.antt =====
-- What `Token::from_hex_string` (src/auth.rs) accepts, and when it panics.
use capycoin.Base.{
  ℕ, ◌-◌, ◌*◌, ◌<◌, ◌≡◌, ◌≢◌, refl, false, ◌||◌, some, List, [], ◌∷◌, ◌==◌, arith, All, inl, inr,
  Bool-cases, Option-cases,
}
use capycoin.Sqlite.{Outcome, ok, err, panic}
use capycoin.Sqlite.Laws.{and_then-eq-ok}
use capycoin.Auth.Hex.{hex_digit, from_str_radix, is_continuation, cuts, parse_pairs, length}
use capycoin.Auth.{Token, token_parse_error, from_hex_string}
use capycoin.Auth.RoundTrip.{IsByte}

hex_digit-lt : (c : ℕ) {d : ℕ} → hex_digit c ≡ some d → d < 16
unfolding hex_digit
hex_digit-lt c h = ground arith

from_str_radix-IsByte : (a b : ℕ) {n : ℕ} → from_str_radix a b ≡ some n → IsByte n
unfolding from_str_radix
from_str_radix-IsByte a b {n} h = elim (Option-cases (hex_digit a)) [
  | inl no_high ↦ ground (arith, hex_digit-lt b {d = n})
  | inr (high, is_high) ↦ elim (Option-cases (hex_digit b)) [
    | inl no_low ↦ ground arith
    | inr (low, is_low) ↦ ground (arith, hex_digit-lt a is_high, hex_digit-lt b is_low)
  ]
]

-- A pair that was read, and the rest of the text.
parse_pairs-cons :
    {E : Type 0} (e : E) (a b : ℕ) (s : List ℕ) (ns : List ℕ)
    → parse_pairs e (a ∷ b ∷ s) ≡ ok ns
    → (n : ℕ) × (ms : List ℕ) × (from_str_radix a b ≡ some n)
      × (parse_pairs e s ≡ ok ms)
      × (ns ≡ n ∷ ms)
unfolding parse_pairs
parse_pairs-cons {E} e a b s ns h = elim (Bool-cases (is_continuation a || cuts s)) [
  | inl cut ↦ let stuck : ◌≡◌ {A = Outcome E (List ℕ)} panic (ok ns) = rw cut at h in cc
  | inr whole ↦ elim (Option-cases (from_str_radix a b)) [
    | inl bad ↦
        let refused : ◌≡◌ {A = Outcome E (List ℕ)} (err e) (ok ns) = rw (whole, bad) at h in cc
    | inr (n, is_n) ↦
        let (ms, parsed, built) =
          and_then-eq-ok (parse_pairs e s) (λ ms. ok (n ∷ ms)) (rw (whole, is_n) at h) in
        (n, ms, is_n, parsed, cc)
  ]
]

parse_pairs_sound :
    {E : Type 0} (e : E) (s : List ℕ) (ns : List ℕ)
    → parse_pairs e s ≡ ok ns
    → All IsByte ns × (length s ≡ 2 * length ns)
unfolding parse_pairs
parse_pairs_sound e [] ns h = let empty : [] ≡ ns = cc in rw (← empty) (tt, refl)
parse_pairs_sound e (a ∷ []) ns h = cc
parse_pairs_sound e (a ∷ b ∷ s) ns h =
    let (n, ms, is_n, parsed, built) = parse_pairs-cons e a b s ns h in
    let (bytes, len) = parse_pairs_sound e s ms parsed in
    rw built ((from_str_radix-IsByte a b is_n, bytes), omega arith)

-- What is accepted is a text of 256 bytes, and the token has 128 bytes.
pub from_hex_string_sound :
    (s : List ℕ) (t : Token)
    → from_hex_string s ≡ ok t
    → (length s ≡ 256) × (length t.bytes ≡ 128) × All IsByte t.bytes
unfolding from_hex_string
from_hex_string_sound s t h = elim (Bool-cases (length s == 256)) [
  | inr other ↦ ground arith
  | inl full ↦
      let (bytes, parsed, built) =
        and_then-eq-ok (parse_pairs token_parse_error s) _ (rw full at h) in
      let (are_bytes, len) = parse_pairs_sound token_parse_error s bytes parsed in
      let same : bytes ≡ t.bytes = cc in
      let is_full : length s ≡ 256 = ground arith in rw (← same) (is_full, omega arith, are_bytes)
]

cuts-IsAscii : (s : List ℕ) → All (λ c. c < 128) s → cuts s ≡ false
cuts-IsAscii [] h = refl
cuts-IsAscii (c ∷ s) h = ground arith

parse_pairs-ne-panic :
    {E : Type 0} (e : E) (n : ℕ) (s : List ℕ)
    → length s ≡ 2 * n
    → All (λ c. c < 128) s
    → parse_pairs e s ≢ panic
unfolding parse_pairs
parse_pairs-ne-panic e n [] len ascii h = cc
parse_pairs-ne-panic e n (a ∷ []) len ascii h = omega arith
parse_pairs-ne-panic e n (a ∷ b ∷ s) len ascii h =
    ground (arith, cuts-IsAscii s, parse_pairs-ne-panic e (n - 1) s)

-- A text of ASCII characters never makes the parser panic.
pub from_hex_string-ne-panic : (s : List ℕ) → All (λ c. c < 128) s → from_hex_string s ≢ panic
unfolding from_hex_string
from_hex_string-ne-panic s ascii h = ground (arith, parse_pairs-ne-panic token_parse_error 128 s)
