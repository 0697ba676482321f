-- ===== src/Gateway/Life/Stands.antt =====
-- Reasoning about what a handler of src/bin/client_gateway.rs leaves in the table of tokens.
use capycoin.Base.{◌≡◌, refl, Bool, true, false, Option, none, some, List, if◌then◌else◌}
use capycoin.Sqlite.{Outcome, ok, Conn, Sql, bind, from_outcome, raise_if}
use capycoin.Sqlite.Keeps.{Kept, bind-Kept, from_outcome-Kept, raise_if-Kept}
use capycoin.Account.{AccountCreatedResult}
use capycoin.Auth.{AuthDatabase}
use capycoin.Message.{
  Result, ClientMessage, ServerMessage, create_new_account_response, get_account_response,
  get_accounts_response, get_transactions_response, get_transaction_response,
  create_transaction_response,
}
use capycoin.Gateway.{Response, World, Libraries, Draw, Handler, in_auth, open_auth, created_of}
use capycoin.Gateway.Handlers.{send}
use capycoin.Gateway.Life.{Visit}
use capycoin.Gateway.Life.Issues.{Stored}

pub created_of-ok :
    (sent : Option ServerMessage) (res : AccountCreatedResult)
    → created_of sent ≡ ok res
    → sent ≡ some (create_new_account_response (Result.ok res))
created_of-ok (some (create_new_account_response (Result.ok r))) res h = cc
created_of-ok (some (create_new_account_response (Result.err e))) res h = cc
created_of-ok none res h = cc
created_of-ok (some (get_account_response r)) res h = cc
created_of-ok (some (get_accounts_response r)) res h = cc
created_of-ok (some (get_transactions_response r)) res h = cc
created_of-ok (some (get_transaction_response r)) res h = cc
created_of-ok (some (create_transaction_response r)) res h = cc

module _ (lib : Libraries) (log : List Visit) (draw : Draw) where
  abbrev pub Stands : {A : Type 0} → Outcome Response A × Conn World → Type 0
  Stands = Kept (λ (w : World). Stored lib log w.auth)

  -- The rest of a handler, after a step that leaves the table as `Stored` says.
  pub step_then :
      {A B : Type 0} (r : Outcome Response A × Conn World) (f : A → Handler B)
      → Stands r
      → ((a : A) → r.0 ≡ ok a → Stands (f a r.1))
      → Stands (bind r f)
  step_then = bind-Kept (λ (w : World). Stored lib log w.auth)

  pub value_then :
      {A B : Type 0} (r : Outcome Response A) (c : Conn World) (f : A → Handler B)
      → Stored lib log c.db.auth
      → ((a : A) → r ≡ ok a → Stands (f a c))
      → Stands (bind (from_outcome r c) f)
  value_then = from_outcome-Kept (λ (w : World). Stored lib log w.auth)

  pub send-Stands :
      (m : ClientMessage) (c : Conn World) → Stored lib log c.db.auth → Stands (send lib draw m c)
  unfolding send
  send-Stands m c h = h

  pub in_auth-Stands :
      {E A : Type 0} (m : Sql AuthDatabase E A) (c : Conn World)
      → Kept (Stored lib log) (m (record { db = c.db.auth; calls = c.calls }))
      → Stands (in_auth m c)
  unfolding in_auth
  in_auth-Stands m c h = h

  pub open_auth-Stands : (c : Conn World) → Stored lib log c.db.auth → Stands (open_auth draw c)
  unfolding open_auth
  open_auth-Stands c h =
      raise_if-Kept (λ (w : World). Stored lib log w.auth) (if draw.opens then false else true) _ c
        h

  pub raise_if_then :
      {B : Type 0} (test : Bool) (e : Response) (c : Conn World) (f : Unit {0} → Handler B)
      → Stored lib log c.db.auth
      → (test ≡ false → Stands (f tt c))
      → Stands (bind (raise_if test e c) f)
  unfolding bind raise_if
  raise_if_then true e c f h k = h
  raise_if_then false e c f h k = k refl

  -- A message is sent, and its response is read.
  pub asked_then :
      {A : Type 0} (m : ClientMessage) (read : Option ServerMessage → Outcome Response A)
      (c : Conn World) (f : A → Handler Response)
      → Stored lib log c.db.auth
      → ((a : A) (c : Conn World) → Stored lib log c.db.auth → Stands (f a c))
      → Stands (bind (send lib draw m c) (λ resp c. bind (from_outcome (read resp) c) f))
  asked_then m read c f h k =
      step_then _ _ (send-Stands m c h)
        λ resp _. value_then (read resp) _ f (send-Stands m c h) λ a _. k a _ (send-Stands m c h)
