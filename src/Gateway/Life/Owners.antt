-- ===== src/Gateway/Life/Owners.antt =====
-- Whose token src/bin/client_gateway.rs accepts, over the life of the gateway.
use mathlib.Core.List.{Mem, mem-cons, not-mem-nil}
use mathlib.Core.Path.{subst}
use mathlib.Core.Logic.Or
use capycoin.Base.{◌≡◌, ◌<◌, sym, true, List, [], ◌∷◌, All}
use capycoin.Sqlite.{ok, Conn}
use capycoin.Database.{Uuid}
use capycoin.Auth.{AuthRow, AuthDatabase, Token, from_hex_string}
use capycoin.Auth.Validate.{Accepts}
use capycoin.Gateway.{Request, Libraries, Draw}
use capycoin.Gateway.Guarded.{Authorized, Authorized-Means}
use capycoin.Gateway.Life.{Visit, Life}
use capycoin.Gateway.Life.Issues.{Issued}
use capycoin.Gateway.Life.Keeps.{Life-Keeps}

Issued-Mem :
    (lib : Libraries) (log : List Visit) (rows : List AuthRow) (row : AuthRow)
    → All (Issued lib log) rows
    → Mem row rows
    → ∥ Issued lib log row ∥₁
Issued-Mem lib log [] row each m = absurd (not-mem-nil m)
Issued-Mem lib log (r ∷ rows) row each m =
    Or.elim (hlevel) (mem-cons.0 m) (λ e. ∣ subst (Issued lib log) (sym e) each.0 ∣₁)
      (λ later. Issued-Mem lib log rows row each.1 later)

-- While the gateway serves requests, one with a token of ASCII characters is authorized for an account
-- only if an earlier request without a token was answered by the core with this account as a new one
-- (`Issued`), the token that comes with the request fits the hash of the token which was drawn for that
-- earlier request, and thirty days after that request have not passed.
pub Authorized-Issued :
    (lib : Libraries) (log : List Visit) (draw : Draw) (request : Request)
    (auth : Conn AuthDatabase) (account_id : Uuid) (a : Authorized lib draw request auth account_id)
    → Life lib true log auth.db
    → All (λ ch. ch < 128) a.token
    → (token : Token) × (row : AuthRow) × (from_hex_string a.token ≡ ok token)
      × (row.account_id ≡ account_id)
      × Accepts lib.bcrypt draw.now token row
      × ∥ Issued lib log row ∥₁
Authorized-Issued lib log draw request auth account_id a life ascii =
    let (rows, present, each) = Life-Keeps lib log true auth.db life in
    let (token, found, parsed, present', (row, m, own, accepts)) =
      Authorized-Means lib draw request auth account_id a ascii in
    let same : found ≡ rows = cc in
    (token, row, parsed, own, accepts, Issued-Mem lib log rows row each (subst (Mem row) same m))
