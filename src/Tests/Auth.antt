-- ===== src/Tests/Auth.antt =====
-- src/auth.rs on concrete tokens and a concrete table.
use mathlib.Core.List.{Mem, mem-cons, not-mem-nil}
use mathlib.Core.Logic.Or
use native.Mathlib.Bridge.{le_prop}
use mathlib.Core.Path.{subst}
use capycoin.Base.{
  sym, ℕ, zero, suc, ◌*◌, ◌+◌, ◌<◌, ◌≤◌, ◌≡◌, ◌≢◌, refl, true, none, some, List, [], ◌∷◌, arith,
  length, All,
}
use capycoin.Sqlite.{ok, err, panic, execute, Conn}
use capycoin.Sqlite.Laws.{Settles}
use capycoin.Database.{day}
use capycoin.Auth.{
  Token, AuthRow, AuthDatabase, token_expired, new_token, to_string, from_hex_string, create_token,
  validate_token, check_rows, judge,
}
use capycoin.Auth.Hex.{parse_pairs, hex_digit, from_str_radix}
use capycoin.Auth.RoundTrip.{IsByte, from_hex_string-to_string}
use capycoin.Auth.Parse.{from_hex_string_sound, from_hex_string-ne-panic}
use capycoin.Auth.Create.{Created, create_token-Settles}
use capycoin.Auth.Validate.{Means, validate_token-Settles}
use capycoin.Auth.Accept.{validate_token_accepts}
use capycoin.Tests.Fixtures.{calm, calm-IsQuiet, counting, marks, today, alice}

abbrev pub repeat : {A : Type 0} → ℕ → A → List A
repeat zero a = []
repeat (suc n) a = a ∷ repeat n a

All-repeat : {A : Type 0} (P : A → Type 0) (n : ℕ) (a : A) → P a → All P (repeat n a)
All-repeat P zero a h = tt
All-repeat P (suc n) a h = (h, All-repeat P n a h)

abbrev token : Token
token = record { bytes = repeat 128 171 }

-- "ABAB…"
abbrev text : List ℕ
text = to_string token

text_read : from_hex_string text ≡ ok token
text_read = from_hex_string-to_string token refl (All-repeat IsByte 128 171 (omega arith))

from_hex_string-to_string_example : from_hex_string (to_string token) ≡ ok token
from_hex_string-to_string_example =
    from_hex_string-to_string token refl (All-repeat IsByte 128 171 (omega arith))

abbrev pub zeros : Token
zeros = record { bytes = repeat 128 0 }

abbrev pub digits : List ℕ
digits = repeat 256 b'0'

pub digits_read : from_hex_string digits ≡ ok zeros
unfolding from_hex_string parse_pairs hex_digit from_str_radix
digits_read = refl

from_hex_string_sound_example :
    (length digits ≡ 256) × (length zeros.bytes ≡ 128) × All IsByte zeros.bytes
from_hex_string_sound_example = from_hex_string_sound digits zeros digits_read

pub digits-All : All (λ c. c < 128) digits
digits-All = All-repeat (λ c. c < 128) 256 b'0' (omega arith)

from_hex_string-ne-panic_example : from_hex_string digits ≢ panic
from_hex_string-ne-panic_example = from_hex_string-ne-panic digits digits-All

-- A sign of euro at the start.
euro_panics : from_hex_string (b'0' ∷ 226 ∷ 130 ∷ repeat 253 b'0') ≡ panic
unfolding from_hex_string parse_pairs
euro_panics = refl

abbrev pub row : AuthRow
row = record { token_hash = marks (repeat 128 0); account_id = alice; expiry = today + 30 * day }

abbrev pub table : Conn AuthDatabase
table = record { db = record { auth = some (row ∷ []) }; calls = 0 }

create_token-Settles_example :
    Settles table.db
      (λ res after. Created counting (new_token (λ i. 0)) today alice res table.db after)
      (create_token calm counting (λ i. 0) 5 today alice table)
create_token-Settles_example =
    create_token-Settles calm counting (λ i. 0) 5 today alice table (omega arith)

validate_token-Settles_example :
    Settles table.db
      (λ b after.
        (after ≡ table.db)
        × ((token : Token) × (rows : List AuthRow) × (from_hex_string digits ≡ ok token)
            × (table.db.auth ≡ some rows)
            × Means counting today token b alice rows))
      (validate_token calm counting today digits alice table)
validate_token-Settles_example =
    validate_token-Settles calm counting today digits alice table digits-All

-- A day after the expiry.
expired : (validate_token calm counting (today + 31 * day) digits alice table).0 ≡ err token_expired
unfolding execute validate_token check_rows judge from_hex_string parse_pairs hex_digit
    from_str_radix
expired = refl

row_there : Mem row (row ∷ [])
row_there = mem-cons.1 (Or.inl refl)

only_row :
    (r : AuthRow)
    → Mem r (row ∷ [])
    → r.account_id ≡ alice
    → (counting.verify zeros.bytes r.token_hash ≢ none)
      × (counting.verify zeros.bytes r.token_hash ≡ some true → today ≤ r.expiry)
only_row r m own = (
  λ e. cc,
  λ fits.
      Or.elim (le_prop) (mem-cons.0 m)
        (λ e. subst (λ (r : AuthRow). today ≤ r.expiry) (sym e) (omega arith))
        (λ later. absurd (not-mem-nil later)),
)

validate_token_accepts_example : (validate_token calm counting today digits alice table).0 ≡ ok true
validate_token_accepts_example =
    validate_token_accepts calm counting today digits alice table zeros (row ∷ []) row calm-IsQuiet
      digits_read refl row_there refl refl only_row
