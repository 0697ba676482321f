-- ===== src/Tests/Tokens.antt =====
-- Tokens of src/auth.rs, from their creation to their expiry.
use mathlib.Core.List.{Mem, not-mem-nil}
use mathlib.Core.Path.{subst}
use capycoin.Base.{◌≡◌, refl, ◌*◌, ◌+◌, true, some, List, [], ◌∷◌, arith}
use capycoin.Sqlite.{ok, err, Conn, execute}
use capycoin.Database.{day}
use capycoin.Auth.{
  Token, AuthRow, AuthDatabase, TokenCreatedResult, add_time, new_token, to_string, create_token,
  validate_token, check_rows, judge, from_hex_string, token_expired,
}
use capycoin.Auth.Issued.{IsHarmless, validate_token-create_token}
use capycoin.Auth.Verdict.{verdict, rows_for, validate_token-verdict}
use capycoin.Tests.Fixtures.{calm, calm-IsQuiet, counting, today, later, alice}
use capycoin.Tests.Auth.{digits, digits_read, zeros, row, table}

abbrev no_rows : Conn AuthDatabase
no_rows = record { db = record { auth = some [] }; calls = 0 }

abbrev issued : TokenCreatedResult
issued = record {
  token = to_string (new_token (λ i. 0));
  account_id = alice;
  expiry = today + 30 * day;
}

is_issued :
    create_token calm counting (λ i. 0) 5 today alice no_rows
    ≡ (ok issued, record { db = record { auth = some (row ∷ []) }; calls = 3 })
unfolding execute create_token new_token add_time capycoin.Auth.draw
is_issued = refl

no_harm :
    (rows : List AuthRow)
    → some [] ≡ some rows
    → (r : AuthRow) → Mem r rows
    → IsHarmless counting later (new_token (λ i. 0)) alice r
no_harm rows e r m =
    let none_there : rows ≡ [] = cc in absurd (not-mem-nil (subst (Mem r) none_there m))

validate_token-create_token_example :
    (validate_token calm counting later issued.token alice
      (record { db = record { auth = some (row ∷ []) }; calls = 3 })).0
    ≡ ok true
validate_token-create_token_example =
    validate_token-create_token calm counting (λ i. 0) 5 today later alice no_rows
      (record { db = record { auth = some (row ∷ []) }; calls = 3 }) issued (λ i. omega arith)
      (omega arith) no_harm is_issued calm-IsQuiet (omega arith)

-- A day after the expiry.
validate_token-verdict_example :
    (validate_token calm counting (today + 31 * day) digits alice table).0
    ≡ verdict counting (today + 31 * day) zeros (rows_for calm alice (row ∷ []))
validate_token-verdict_example =
    validate_token-verdict calm counting (today + 31 * day) digits alice table zeros (row ∷ [])
      calm-IsQuiet digits_read refl

late :
    verdict counting (today + 31 * day) zeros (rows_for calm alice (row ∷ [])) ≡ err token_expired
late = refl
