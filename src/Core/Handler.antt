-- ===== src/Core/Handler.antt =====
-- The closure that `main` of src/bin/core.rs gives to `socket_server`: from the bytes of a datagram to
-- those of the response.
use Prim.Native.String.{String}
use capycoin.Base.{ℕ, ◌≡◌, refl, ◌≢◌, Option, none, some, List, inl, inr, Option-cases, arith}
use capycoin.Base.Int.{pos}
use capycoin.Base.Utf8.{from_utf8}
use capycoin.Sqlite.{SqlError, Outcome, ok, err, panic, Engine, Conn, bind, from_outcome, pure}
use capycoin.Database.{Database}
use capycoin.Account.{seed_account_id}
use capycoin.Ledger.Consistent.{IsConsistent}
use capycoin.Message.{
  IsTyped, ClientMessagePacket, ServerMessagePacket, Json, client_from_json, server_to_json,
}
use capycoin.Core.Answers.{Gives, Answers}
use capycoin.Core.Dispatch.{message_dispatch-Answers}
use capycoin.Core.{AppError, general_error, Fresh, message_dispatch, expect, reply, handler}

module _ (json : Json) where
  -- What is read as a packet is of a type that Rust can hold.
  client_from_json-IsTyped :
      (s : List ℕ) (p : ClientMessagePacket) → client_from_json json s ≡ some p → IsTyped p.message
  unfolding client_from_json
  client_from_json-IsTyped s p e = elim (Option-cases (json.client_from_str s)) [
    | inl missing ↦ ground arith
    | inr (q, read) ↦ let same : q ≡ p = ground arith in rw (← same) (json.client_IsTyped s q read)
  ]

  module _ (engine : Engine) (fresh : Fresh) (msg : List ℕ) (before : Database) where
    -- The packet that was answered, and the response before it was written.
    pub record Served (after : Database) : Type 0 where
      pub text : List ℕ
      pub packet : ClientMessagePacket
      pub resp : ServerMessagePacket
      pub is_text : from_utf8 msg ≡ some text
      pub is_packet : client_from_json json text ≡ some packet
      pub version : resp.v ≡ pos 1
      pub same_id : resp.message_id ≡ packet.message_id
      pub answers : Answers engine fresh before packet.message resp.message after
      pub ready : IsConsistent after

    -- The ways in which the handling of a datagram ends: with a response, without one because the
    -- bytes are no packet of version 1, with an error because they are no text, or in a panic because
    -- the response cannot be written.
    abbrev pub Serves : Outcome AppError (Option (List ℕ)) × Conn Database → Type 0
    Serves (ok (some bytes), c) = (s : Served c.db) × (server_to_json json s.resp ≡ some bytes)
    Serves (ok none, c) =
        (c.db ≡ before)
        × ((text : List ℕ) × (from_utf8 msg ≡ some text) × (client_from_json json text ≡ none))
    Serves (err e, c) = (c.db ≡ before) × (e ≡ general_error) × (from_utf8 msg ≡ none)
    Serves (panic, c) = (s : Served c.db) × (server_to_json json s.resp ≡ none)

module _ (engine : Engine) (debug_sql : SqlError → String) (json : Json) (fresh : Fresh)
    (msg : List ℕ) (c : Conn Database) (ready : IsConsistent c.db) (ne : fresh.id ≢ seed_account_id)
    (text : List ℕ) (packet : ClientMessagePacket) (is_text : from_utf8 msg ≡ some text)
    (is_packet : client_from_json json text ≡ some packet) where
  abbrev served :
      (resp : ServerMessagePacket) (after : Database)
      → (resp.v ≡ pos 1)
        × (resp.message_id ≡ packet.message_id)
        × Answers engine fresh c.db packet.message resp.message after
        × IsConsistent after
      → Served json engine fresh msg c.db after
  served resp after h = record {
    text = text;
    packet = packet;
    resp = resp;
    is_text = is_text;
    is_packet = is_packet;
    version = h.0;
    same_id = h.1;
    answers = h.2;
    ready = h.3;
  }

  -- The response is written, or the writing fails.
  write-Serves :
      (resp : ServerMessagePacket) (c' : Conn Database)
      (s : Served json engine fresh msg c.db c'.db)
      → s.resp ≡ resp
      → Serves json engine fresh msg c.db (
          bind
            (from_outcome (expect (server_to_json json resp)) c')
            (λ resp_json. pure (some resp_json)))
  unfolding bind from_outcome
  write-Serves resp c' s same = elim (Option-cases (server_to_json json resp)) [
    | inl unwritten ↦ rw unwritten (s, rw same unwritten)
    | inr (bytes, written) ↦ rw written (s, rw same written)
  ]

  reply-Serves :
      Serves json engine fresh msg c.db (reply engine debug_sql json fresh (some packet) c)
  unfolding bind
  reply-Serves = go (message_dispatch engine debug_sql fresh packet c) (
      message_dispatch-Answers engine debug_sql fresh packet c ready
        (client_from_json-IsTyped json text packet is_packet) ne)
    where
      go :
          (r : Outcome AppError ServerMessagePacket × Conn Database)
          → Gives
              (λ resp after.
                (resp.v ≡ pos 1)
                × (resp.message_id ≡ packet.message_id)
                × Answers engine fresh c.db packet.message resp.message after
                × IsConsistent after)
              r
          → Serves json engine fresh msg c.db (
              bind r (λ resp c'.
                bind
                  (from_outcome (expect (server_to_json json resp)) c')
                  (λ resp_json. pure (some resp_json))))
      go (ok resp, c') h = write-Serves resp c' (served resp c'.db h) refl
      go (err e, c') h = absurd h
      go (panic, c') h = absurd h

-- Whatever calls fail, the handling of a datagram on a database whose accounts and ledger agree ends
-- in one of the four ways that `Serves` lists: with the written response that answers the packet, or
-- with no response or an error and an unchanged database, or, only if the response cannot be written,
-- in a panic. The id that the call draws is not the seed account's.
pub handler-Serves :
    (engine : Engine) (debug_sql : SqlError → String) (json : Json) (fresh : Fresh) (msg : List ℕ)
    (c : Conn Database)
    → IsConsistent c.db
    → fresh.id ≢ seed_account_id
    → Serves json engine fresh msg c.db (handler engine debug_sql json fresh msg c)
unfolding handler bind from_outcome
handler-Serves engine debug_sql json fresh msg c ready ne = elim (Option-cases (from_utf8 msg)) [
  | inl no_text ↦ rw no_text (refl, refl, no_text)
  | inr (text, is_text) ↦ elim (Option-cases (client_from_json json text)) [
    | inl no_packet ↦ rw (is_text, no_packet) (refl, (text, is_text, no_packet))
    | inr (packet, is_packet) ↦
        rw (is_text, is_packet)
          (reply-Serves engine debug_sql json fresh msg c ready ne text packet is_text is_packet)
  ]
]
