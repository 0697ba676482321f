-- ===== src/Auth/Issued.antt =====
-- A token that `create_token` of src/auth.rs gives, as `validate_token` takes it.
use mathlib.Core.List.{Mem, mem-cons, mem-append, not-mem-nil}
use mathlib.Core.Logic.Or
use native.Mathlib.Bridge.{le_prop}
use capycoin.Base.{
  ℕ, zero, suc, ◌+◌, ◌*◌, ◌<◌, ◌≤◌, ◌≡◌, ◌≢◌, refl, true, none, some, List, [], ◌∷◌, ◌++◌, ap, All,
  length,
}
use capycoin.Sqlite.{ok, Engine, Conn}
use capycoin.Sqlite.Laws.{Settles-ok}
use capycoin.Sqlite.Quiet.{IsQuiet}
use capycoin.Database.{Uuid, Time, day}
use capycoin.Auth.{
  Token, AuthRow, AuthDatabase, Bcrypt, TokenCreatedResult, time_max, draw, new_token,
  from_hex_string, create_token, validate_token,
}
use capycoin.Auth.RoundTrip.{IsByte, from_hex_string-to_string}
use capycoin.Auth.Create.{Created, create_token-Settles}
use capycoin.Auth.Accept.{validate_token_accepts}

pub length-draw : (random : ℕ → ℕ) (i n : ℕ) → length (draw random i n) ≡ n
unfolding draw
length-draw random i zero = refl
length-draw random i (suc n) = ap (λ m. suc m) (length-draw random (i + 1) n)

pub draw-All :
    (random : ℕ → ℕ) → ((i : ℕ) → IsByte (random i)) → (i n : ℕ) → All IsByte (draw random i n)
unfolding draw
draw-All random bytes i zero = tt
draw-All random bytes i (suc n) = (bytes i, draw-All random bytes (i + 1) n)

-- A row that does not stand in the way of a token of the account: its hash can be checked, and if it
-- fits, the row has not expired.
abbrev pub IsHarmless : Bcrypt → Time → Token → Uuid → AuthRow → Type 0
IsHarmless bcrypt now token account_id row =
    row.account_id ≡ account_id
    → (bcrypt.verify token.bytes row.token_hash ≢ none)
      × (bcrypt.verify token.bytes row.token_hash ≡ some true → now ≤ row.expiry)

-- The row of the token does not, and the others were said not to.
Created-IsHarmless :
    (bcrypt : Bcrypt) (token : Token) (made now : Time) (account_id : Uuid)
    (res : TokenCreatedResult) (before after : AuthDatabase)
    (i : Created bcrypt token made account_id res before after)
    → now ≤ made + 30 * day
    → ((r : AuthRow) → Mem r i.rows → IsHarmless bcrypt now token account_id r)
    → (r : AuthRow)
    → Mem r (
        i.rows
        ++ record { token_hash = i.hash; account_id = account_id; expiry = made + 30 * day } ∷ [])
    → IsHarmless bcrypt now token account_id r
Created-IsHarmless bcrypt token made now account_id res before after i in_time old r m =
    Or.elim (hlevel le_prop) (mem-append.0 m) (λ earlier. old r earlier)
      (λ last.
        Or.elim (hlevel le_prop) (mem-cons.0 last)
          (λ e. rw e (λ own. (λ broken. cc (i.fits, broken), λ fits. in_time)))
          (λ no. absurd (not-mem-nil no)))

-- The round trip of a token: after a successful `create_token`, and as long as no call fails,
-- `validate_token` accepts the text of the token that was returned for the account, until thirty days
-- after it was made. The random numbers are bytes, the year 9999 has not ended by then, and the older
-- rows of the account do not stand in the way: their hashes can be checked, and one that fits the
-- token has not expired.
pub validate_token-create_token :
    (engine : Engine) (bcrypt : Bcrypt) (random : ℕ → ℕ) (salt : ℕ) (made now : Time)
    (account_id : Uuid) (c c' : Conn AuthDatabase) (res : TokenCreatedResult)
    → ((i : ℕ) → random i < 256)
    → made + 30 * day < time_max
    → ((rows : List AuthRow)
        → c.db.auth ≡ some rows
        → (r : AuthRow) → Mem r rows
        → IsHarmless bcrypt now (new_token random) account_id r)
    → create_token engine bcrypt random salt made account_id c ≡ (ok res, c')
    → IsQuiet engine
    → now ≤ made + 30 * day
    → (validate_token engine bcrypt now res.token account_id c').0 ≡ ok true
unfolding new_token
validate_token-create_token engine bcrypt random salt made now account_id c c' res bytes in_range
      old created quiet in_time =
    let token = new_token random in
    let i : Created bcrypt token made account_id res c.db c'.db =
      Settles-ok c.db _ _
        (create_token-Settles engine bcrypt random salt made account_id c in_range) created in
    let added : AuthRow = record {
      token_hash = i.hash;
      account_id = account_id;
      expiry = made + 30 * day;
    } in
    let parsed : from_hex_string res.token ≡ ok token =
      rw i.result (
        from_hex_string-to_string token (length-draw random 0 128) (draw-All random bytes 0 128)) in
    validate_token_accepts engine bcrypt now res.token account_id c' token (i.rows ++ added ∷ [])
      added quiet parsed i.added (mem-append.1 (Or.inr (mem-cons.1 (Or.inl refl)))) refl i.fits
      (Created-IsHarmless bcrypt token made now account_id res c.db c'.db i in_time
        (old i.rows i.was))
