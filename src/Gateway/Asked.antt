-- ===== src/Gateway/Asked.antt =====
-- What src/bin/client_gateway.rs knows when it has sent a message and when it has checked a token: the
-- exchange of src/client_util.rs and the handling of the datagram by src/bin/core.rs, taken together.
use Prim.Native.String.{String}
use mathlib.Core.Path.{subst}
use capycoin.Base.{
  take_all, length, ◌≤◌, ◌≡◌, ◌≢◌, refl, Option, none, some, ℕ, List, ◌∷◌, Bool, true, false, arith,
  if◌then◌else◌, ap, ◌∙◌,
}
use capycoin.Sqlite.{SqlError, Engine, Outcome, ok, err, panic, Conn, bind, from_outcome}
use capycoin.Database.{Uuid, Database}
use capycoin.Account.{seed_account_id}
use capycoin.Auth.{AuthError, AuthDatabase, validate_token}
use capycoin.Ledger.Consistent.{IsConsistent}
use capycoin.Message.{ClientMessage, ServerMessage, new_client_packet, client_to_json}
use capycoin.Client.{Address, exchange, read_response, as_option, send_and_recv_msg}
use capycoin.Client.Exchange.{Received, Receives, send_and_recv_msg-Receives, written_text}
use capycoin.Core.{AppError, Fresh, handler}
use capycoin.Core.Answers.{Answers}
use capycoin.Core.Handler.{Serves, handler-Serves}
use capycoin.Core.Exchange.{Exchanges, handler-Exchanges}
use capycoin.Gateway.Token.{bearer_token}
use capycoin.Gateway.{Request, Response, World, Libraries, Draw, refusal, in_auth, open_auth, admit}
use capycoin.Gateway.Handlers.{send, validate_token_response}
use capycoin.Gateway.Responds.{
  Responds, or_return-Responds, raise_if-Responds, refusal_401, refusal_500,
}
use capycoin.Gateway.Guarded.{Authorized}

-- The core that the gateway talks to: what it is given, and its database before the request.
pub record CoreProcess : Type 1 where
  pub engine : Engine
  pub debug_sql : SqlError → String
  pub fresh : Fresh
  pub con : Conn Database

module _ (lib : Libraries) (draw : Draw) (core : CoreProcess) where
  abbrev pub core_reply : List ℕ → Outcome AppError (Option (List ℕ)) × Conn Database
  core_reply sent = handler core.engine core.debug_sql lib.json core.fresh sent core.con

  -- What comes back for a datagram is what the core answers to it, and fits into the client's buffer of
  -- a mebibyte.
  abbrev pub IsCore : Type 0
  IsCore =
      (sent msg : List ℕ)
      → draw.wire.recv sent ≡ some msg
      → ((core_reply sent).0 ≡ ok (some msg)) × (length msg ≤ 1048576)

  -- The core was asked with a message's packet, and has given this answer to it.
  pub record Asked (m : ClientMessage) (resp : ServerMessage) : Type 0 where
    pub sent : List ℕ
    pub written : client_to_json lib.json (new_client_packet draw.id m) ≡ some sent
    pub answers : Answers core.engine core.fresh core.con.db m resp (core_reply sent).1.db

  -- The core was asked, and the message is the last that was sent.
  abbrev pub Asks : ClientMessage → Option ServerMessage → List ClientMessage → Type 0
  Asks m none sent = Unit
  Asks m (some resp) sent = Asked m resp × ((before : List ClientMessage) × (sent ≡ m ∷ before))

  module _ (is_core : IsCore) (ready : IsConsistent core.con.db)
      (ne : core.fresh.id ≢ seed_account_id) where
    Received-Asked :
        (m : ClientMessage) (resp : ServerMessage)
        → Received lib.json draw.wire draw.id m resp
        → Asked m resp
    Received-Asked m resp r =
        go (core_reply r.sent) (is_core r.sent r.msg r.came).0
          (handler-Serves core.engine core.debug_sql lib.json core.fresh r.sent core.con ready ne)
          (handler-Exchanges core.engine core.debug_sql lib.json core.fresh draw.id m r.sent
            core.con ready ne r.written)
          (λ answers. record { sent = r.sent; written = r.written; answers = answers })
      where
        go :
            (x : Outcome AppError (Option (List ℕ)) × Conn Database)
            → x.0 ≡ ok (some r.msg)
            → Serves lib.json core.engine core.fresh r.sent core.con.db x
            → Exchanges core.engine lib.json core.fresh draw.id m core.con.db x
            → (Answers core.engine core.fresh core.con.db m resp x.1.db → Asked m resp)
            → Asked m resp
        go (ok (some bytes), c) e (s, written) (p, read, same_id, answers) k =
            let same : bytes ≡ r.msg = cc in
            let is_resp : read_response lib.json bytes ≡ some p =
              rw (read_response, written_text lib.json s.resp bytes written) read in
            let same_packet : p ≡ r.resp =
              cc (
                is_resp,
                r.is_resp,
                same,
                take_all 1048576 r.msg (is_core r.sent r.msg r.came).1,
              ) in
            k (
              subst (λ x. Answers core.engine core.fresh core.con.db m x c.db)
                (ap (λ q. q.message) same_packet ∙ r.is_message) answers)
        go (ok none, c) e s h k = cc
        go (err x, c) e s h k = cc
        go (panic, c) e s h k = cc

    pub send-Asks : (m : ClientMessage) (c : Conn World) → Responds (Asks m) (send lib draw m c)
    unfolding send send_and_recv_msg
    send-Asks m c =
        go
          (exchange lib.json draw.wire draw.address draw.id m
            (record { db = c.db.sockets; calls = c.calls }))
          (send_and_recv_msg-Receives lib.json draw.wire draw.address draw.id m
            (record { db = c.db.sockets; calls = c.calls }))
      where
        go :
            (x : Outcome (Unit {0}) ServerMessage × Conn (List Address))
            → Receives lib.json draw.wire draw.id m draw.address c.db.sockets
                (as_option {E = Unit {0}} x.0, x.1)
            → Responds (Asks m) (
              as_option {E = Response} x.0,
              record {
                db = record (c.db) { sockets = x.1.db; sent = m ∷ c.db.sent };
                calls = x.1.calls;
              },
            )
        go (ok resp, c') h = (Received-Asked m resp h.0, (c.db.sent, refl))
        go (err e, c') h = tt
        go (panic, c') h = tt

  -- The answer to a check of a token: a refusal, or the token is accepted for the account.
  admit-Responds :
      (request : Request) (c : Conn World) (account_id : Uuid) (token : List ℕ)
      → bearer_token request.authorization ≡ some token
      → draw.opens ≡ true
      → Responds
          (λ _ _.
            Authorized lib draw request (record { db = c.db.auth; calls = c.calls }) account_id)
          (bind
            (in_auth (validate_token lib.engine lib.bcrypt draw.now token account_id) c)
            (λ valid. from_outcome (admit valid)))
  unfolding bind in_auth from_outcome
  admit-Responds request c account_id token is_bearer opened =
      go
        (validate_token lib.engine lib.bcrypt draw.now token account_id
          (record { db = c.db.auth; calls = c.calls }))
        (λ h. record { token = token; is_bearer = is_bearer; opened = opened; valid = h })
    where
      go :
          (r : Outcome AuthError Bool × Conn AuthDatabase)
          → ((r.0 ≡ ok true)
              → Authorized lib draw request (record { db = c.db.auth; calls = c.calls }) account_id)
          → Responds
              (λ _ _.
                Authorized lib draw request (record { db = c.db.auth; calls = c.calls }) account_id)
              (bind (in_auth (λ _. r) c) (λ valid. from_outcome (admit valid)))
      go (ok true, a) k = k refl
      go (ok false, a) k = refusal_401 _
      go (err e, a) k = refusal_401 _
      go (panic, a) k = tt

  pub validate_token_response-Responds :
      (request : Request) (c : Conn World) (account_id : Uuid)
      → Responds
          (λ _ _.
            Authorized lib draw request (record { db = c.db.auth; calls = c.calls }) account_id)
          (validate_token_response lib draw request account_id c)
  unfolding validate_token_response open_auth
  validate_token_response-Responds request c account_id =
      or_return-Responds _ (refusal 401 "Token required!") (bearer_token request.authorization) c _
        (refusal_401 "Token required!")
        λ token is_bearer.
          raise_if-Responds _ (if draw.opens then false else true)
            (refusal 500 "Internal server error") c _ (refusal_500 "Internal server error")
            λ opened. admit-Responds request c account_id token is_bearer (ground arith)
