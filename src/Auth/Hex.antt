-- ===== src/Auth/Hex.antt =====
-- Hexadecimal texts of src/auth.rs: `u8::from_str_radix` on pairs of characters, and `{:02X}`.
use capycoin.Base.{
  ℕ, ◌+◌, ◌-◌, ◌*◌, ◌/◌, ◌%◌, Bool, false, ◌&&◌, ◌||◌, Option, none, some, List, [], ◌∷◌, ◌==◌, ltb,
  leb, if◌then◌else◌,
}
pub use capycoin.Base.{length}
use capycoin.Sqlite.{Outcome, ok, err, panic, and_then}

-- `char::to_digit(16)` of an ASCII character; every other byte is no digit.
unfoldable pub hex_digit : ℕ → Option ℕ
hex_digit c =
    if leb b'0' c && leb c b'9'
    then some (c - b'0')
    else if leb b'a' c && leb c b'f'
    then some (c - b'a' + 10)
    else if leb b'A' c && leb c b'F'
    then some (c - b'A' + 10)
    else none

-- `u8::from_str_radix(s, 16)` of a text of two bytes: a leading plus is a sign, and two digits
-- never overflow.
unfoldable pub from_str_radix : ℕ → ℕ → Option ℕ
from_str_radix a b = if a == b'+' then hex_digit b else elim (hex_digit a) [
  | none ↦ none
  | some high ↦ elim (hex_digit b) [ none ↦ none | some low ↦ some (high * 16 + low) ]
]

-- A byte inside a character of UTF-8. A slice that begins or ends before one panics.
abbrev pub is_continuation : ℕ → Bool
is_continuation c = leb 128 c && ltb c 192

abbrev pub cuts : List ℕ → Bool
cuts [] = false
cuts (c ∷ s) = is_continuation c

-- The slices `&s[i..i + 2]` in order, each parsed, up to the first that is refused.
unfoldable pub parse_pairs : {E : Type 0} → E → List ℕ → Outcome E (List ℕ)
parse_pairs e [] = ok []
parse_pairs e (a ∷ []) = panic
parse_pairs e (a ∷ b ∷ s) =
    let rest = parse_pairs e s in
    if is_continuation a || cuts s
    then panic
    else elim (from_str_radix a b) [ none ↦ err e | some n ↦ and_then rest (λ ns. ok (n ∷ ns)) ]

-- An upper-case digit.
unfoldable pub hex_char : ℕ → ℕ
hex_char d = if ltb d 10 then b'0' + d else b'A' + d - 10

unfoldable pub hex_pairs : List ℕ → List ℕ
hex_pairs [] = []
hex_pairs (n ∷ ns) = hex_char (n / 16) ∷ hex_char (n % 16) ∷ hex_pairs ns
