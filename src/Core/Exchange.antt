-- ===== src/Core/Exchange.antt =====
-- The exchange between a client and the core: a packet that src/message.rs writes for a message,
-- handled by src/bin/core.rs, and the response as src/message.rs reads it.
use Prim.Native.String.{String}
use mathlib.Core.Path.{subst}
use capycoin.Base.{ℕ, ◌≡◌, ◌≢◌, refl, Option, none, some, List, ◌∙◌, ap}
use capycoin.Base.Utf8.{from_utf8}
use capycoin.Sqlite.{SqlError, Outcome, ok, err, panic, Engine, Conn}
use capycoin.Database.{Uuid, Database}
use capycoin.Account.{seed_account_id}
use capycoin.Ledger.Consistent.{IsConsistent}
use capycoin.Message.{
  ClientMessage, ServerMessagePacket, Json, client_to_json, new_client_packet, client_from_json,
  server_to_json, server_from_json,
}
use capycoin.Message.Laws.{client_from_json-client_to_json, server_from_json-server_to_json}
use capycoin.Core.Answers.{Answers}
use capycoin.Core.Handler.{Served, Serves, handler-Serves}
use capycoin.Core.{AppError, Fresh, handler}

module _ (engine : Engine) (json : Json) (fresh : Fresh) (id : Uuid) (m : ClientMessage)
    (before : Database) where
  -- The client reads a response with its packet's id that answers its message, unless the core could
  -- not write the response.
  abbrev pub Exchanges : Outcome AppError (Option (List ℕ)) × Conn Database → Type 0
  Exchanges (ok (some bytes), c) =
      (resp : ServerMessagePacket) × (server_from_json json bytes ≡ some resp)
      × (resp.message_id ≡ id)
      × Answers engine fresh before m resp.message c.db
  Exchanges (ok none, c) = ⊥
  Exchanges (err e, c) = ⊥
  Exchanges (panic, c) = (resp : ServerMessagePacket) × (server_to_json json resp ≡ none)

  module _ (s : List ℕ) (written : client_to_json json (new_client_packet id m) ≡ some s) where
    sent_text : from_utf8 s ≡ some s
    unfolding client_to_json from_utf8
    sent_text = rw (json.client_is_utf8 (new_client_packet id m) s written) refl

    sent_packet : client_from_json json s ≡ some (new_client_packet id m)
    unfolding new_client_packet
    sent_packet = client_from_json-client_to_json json (new_client_packet id m) s written

    served_packet :
        {after : Database} (h : Served json engine fresh s before after)
        → h.packet ≡ new_client_packet id m
    served_packet h =
        let same : h.text ≡ s = cc (h.is_text, sent_text) in cc (h.is_packet, sent_packet, same)

    Serves-Exchanges :
        (r : Outcome AppError (Option (List ℕ)) × Conn Database)
        → Serves json engine fresh s before r
        → Exchanges r
    unfolding new_client_packet
    Serves-Exchanges (ok (some bytes), c) (h, sent) =
        let same = served_packet h in
        (
          h.resp,
          rw (server_from_json-server_to_json json h.resp bytes sent, h.version) refl,
          h.same_id ∙ ap (λ p. p.message_id) same,
          subst (λ p. Answers engine fresh before p.message h.resp.message c.db) same h.answers,
        )
    Serves-Exchanges (ok none, c) (kept, (text, is_text, unread)) =
        cc (is_text, sent_text, unread, sent_packet)
    Serves-Exchanges (err e, c) (kept, general, no_text) = cc (no_text, sent_text)
    Serves-Exchanges (panic, c) (h, unwritten) = (h.resp, unwritten)

-- A client's message, written as a packet with the id `id` and handled by the core on a database
-- whose accounts and ledger agree, comes back, whatever calls fail, as bytes that the client reads as
-- a response with the id `id` that answers the message, unless the core cannot write the response.
-- The id that the core draws is not the seed account's.
pub handler-Exchanges :
    (engine : Engine) (debug_sql : SqlError → String) (json : Json) (fresh : Fresh) (id : Uuid)
    (m : ClientMessage) (s : List ℕ) (c : Conn Database)
    → IsConsistent c.db
    → fresh.id ≢ seed_account_id
    → client_to_json json (new_client_packet id m) ≡ some s
    → Exchanges engine json fresh id m c.db (handler engine debug_sql json fresh s c)
handler-Exchanges engine debug_sql json fresh id m s c ready ne written =
    Serves-Exchanges engine json fresh id m c.db s written (handler engine debug_sql json fresh s c)
      (handler-Serves engine debug_sql json fresh s c ready ne)
