-- ===== src/Auth/RoundTrip.antt =====
-- `Token::from_hex_string` and the display of a token (src/auth.rs).
use capycoin.Base.{
  ℕ, ◌*◌, ◌/◌, ◌%◌, ◌<◌, ◌≡◌, refl, false, some, List, [], ◌∷◌, ◌==◌, arith, All, ap,
}
use capycoin.Sqlite.{ok}
use capycoin.Auth.Hex.{hex_digit, from_str_radix, cuts, parse_pairs, hex_char, hex_pairs, length}
use capycoin.Auth.{Token, token_parse_error, from_hex_string, to_string}

abbrev pub IsByte : ℕ → Type 0
IsByte n = n < 256

hex_char-IsAscii : (d : ℕ) → d < 16 → hex_char d < 128
unfolding hex_char
hex_char-IsAscii d h = ground arith

hex_digit-hex_char : (d : ℕ) → d < 16 → hex_digit (hex_char d) ≡ some d
unfolding hex_digit hex_char
hex_digit-hex_char d h = ground arith

hex_char-ne-plus : (d : ℕ) → d < 16 → (hex_char d == b'+') ≡ false
unfolding hex_char
hex_char-ne-plus d h = ground arith

from_str_radix-hex :
    (n : ℕ) → IsByte n → from_str_radix (hex_char (n / 16)) (hex_char (n % 16)) ≡ some n
unfolding from_str_radix
from_str_radix-hex n h =
    rw
      (
        hex_char-ne-plus (n / 16) (omega arith),
        hex_digit-hex_char (n / 16) (omega arith),
        hex_digit-hex_char (n % 16) (omega arith),
      )
      (ap (λ x. some x) (omega arith))

cuts-hex_pairs : (ns : List ℕ) → All IsByte ns → cuts (hex_pairs ns) ≡ false
unfolding hex_pairs
cuts-hex_pairs [] h = refl
cuts-hex_pairs (n ∷ ns) h = ground (arith, hex_char-IsAscii (n / 16))

parse_pairs-hex_pairs :
    {E : Type 0} (e : E) (ns : List ℕ) → All IsByte ns → parse_pairs e (hex_pairs ns) ≡ ok ns
unfolding parse_pairs hex_pairs
parse_pairs-hex_pairs e [] h = refl
parse_pairs-hex_pairs e (n ∷ ns) h = ground (
  arith,
  hex_char-IsAscii (n / 16),
  cuts-hex_pairs ns h.1,
  from_str_radix-hex n h.0,
  parse_pairs-hex_pairs e ns h.1,
)

pub length-hex_pairs : (ns : List ℕ) → length (hex_pairs ns) ≡ 2 * length ns
unfolding hex_pairs
length-hex_pairs [] = refl
length-hex_pairs (n ∷ ns) = omega (arith, length-hex_pairs ns)

-- A token of 128 bytes is read back from its text.
pub from_hex_string-to_string :
    (t : Token) → length t.bytes ≡ 128 → All IsByte t.bytes → from_hex_string (to_string t) ≡ ok t
unfolding from_hex_string to_string
from_hex_string-to_string t len bytes =
    ground (arith, length-hex_pairs t.bytes, parse_pairs-hex_pairs token_parse_error t.bytes bytes)
