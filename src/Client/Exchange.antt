-- ===== src/Client/Exchange.antt =====
-- `send_and_recv_msg` of src/client_util.rs: what it returns, which files it leaves, and what it returns
-- when src/bin/core.rs answers.
use Prim.Native.String.{String}
use mathlib.Core.Path.{subst}
use capycoin.Base.{
  ℕ, ◌≡◌, ◌≢◌, ◌⊎◌, refl, true, false, Option, none, some, List, [], ◌∷◌, ◌==◌, ◌||◌, not, arith,
  filter, take, take_all, length, ◌≤◌, ◌&&◌, Bool-cases, Option-cases, inl, inr, ==_iff,
}
use capycoin.Base.Utf8.{from_utf8}
use capycoin.Sqlite.{SqlError, Outcome, ok, err, panic, Engine, Conn, execute}
use capycoin.Database.{Uuid, Database}
use capycoin.Account.{seed_account_id}
use capycoin.Ledger.Consistent.{IsConsistent}
use capycoin.Message.{
  ClientMessage, ServerMessage, ServerMessagePacket, new_client_packet, Json, client_to_json,
  server_to_json,
}
use capycoin.Core.{Fresh, handler}
use capycoin.Core.Answers.{Answers}
use capycoin.Core.Handler.{Serves, handler-Serves}
use capycoin.Core.Exchange.{Exchanges, handler-Exchanges}
use capycoin.Client.{
  Address, same_address, mem_address, Wire, bind_socket, remove_socket, read_response, exchange,
  send_and_recv_msg,
}

same_address_refl : (a : Address) → same_address a a ≡ true
same_address_refl a = rw ((==_iff a.pid a.pid).1 refl, (==_iff a.ts a.ts).1 refl) refl

-- Removing a path that is not there.
remove_absent :
    (a : Address) (files : List Address)
    → mem_address a files ≡ false
    → filter (λ b. not (same_address a b)) files ≡ files
remove_absent a [] h = refl
remove_absent a (b ∷ files) h = ground (arith, remove_absent a files)

remove_added :
    (a : Address) (files : List Address)
    → mem_address a files ≡ false
    → filter (λ b. not (same_address a b)) (a ∷ files) ≡ files
remove_added a files h = rw (same_address_refl a) (remove_absent a files h)

-- A response that was accepted: the client's packet could be written, a datagram came back for it,
-- and its first mebibyte is a text of a packet of version 1 that has the packet's id.
pub record Received (json : Json) (wire : Wire) (id : Uuid) (message : ClientMessage)
    (m : ServerMessage) : Type 0 where
  pub sent : List ℕ
  pub msg : List ℕ
  pub resp : ServerMessagePacket
  pub written : client_to_json json (new_client_packet id message) ≡ some sent
  pub came : wire.recv sent ≡ some msg
  pub is_resp : read_response json (take 1048576 msg) ≡ some resp
  pub same_id : resp.message_id ≡ id
  pub is_message : resp.message ≡ m

module _ (json : Json) (wire : Wire) (id : Uuid) (message : ClientMessage) (address : Address)
    (files : List Address) where
  -- A response leaves no file; without one the socket's file is left or not; a panic leaves it, and means
  -- that an option of the socket could not be set, or that the packet could not be written or sent.
  abbrev pub Receives : Outcome (Unit {0}) (Option ServerMessage) × Conn (List Address) → Type 0
  Receives (ok (some m), c) = Received json wire id message m × (c.db ≡ files)
  Receives (ok none, c) = (c.db ≡ files) ⊎ (c.db ≡ address ∷ files)
  Receives (err e, c) = ⊥
  Receives (panic, c) =
      (c.db ≡ address ∷ files)
      × ((wire.sets_timeout && wire.sets_options ≡ false)
          ⊎ ((wire.connects ≡ true)
              × ((client_to_json json (new_client_packet id message) ≡ none)
                  ⊎ (wire.sends ≡ false))))

pub send_and_recv_msg-Receives :
    (json : Json) (wire : Wire) (address : Address) (id : Uuid) (message : ClientMessage)
    (c : Conn (List Address))
    → Receives json wire id message address c.db
        (send_and_recv_msg {E = Unit {0}} json wire address id message c)
unfolding execute send_and_recv_msg exchange bind_socket remove_socket
send_and_recv_msg-Receives json wire address id message c =
    elim (Bool-cases (mem_address address c.db || wire.refused)) [
      | inl taken ↦ rw taken (inl refl)
      | inr free ↦ elim (Bool-cases wire.sets_timeout) [
        | inr timeless ↦ rw (free, timeless) (refl, inl refl)
        | inl timed ↦ elim (Bool-cases wire.sets_options) [
          | inr unset ↦ rw (free, timed, unset) (refl, inl refl)
          | inl set ↦ elim (Bool-cases wire.connects) [
            | inr unconnected ↦ rw (free, timed, set, unconnected) (inr refl)
            | inl connected ↦
                elim (Option-cases (client_to_json json (new_client_packet id message))) [
                  | inl unwritten ↦
                      rw (free, timed, set, connected, unwritten) (refl, inr (refl, inl unwritten))
                  | inr (sent, written) ↦ elim (Bool-cases wire.sends) [
                    | inr unsent ↦
                        rw (free, timed, set, connected, written, unsent)
                          (refl, inr (refl, inr refl))
                    | inl sends ↦ elim (Option-cases (wire.recv sent)) [
                      | inl nothing ↦
                          rw (free, timed, set, connected, written, sends, nothing) (inr refl)
                      | inr (msg, came) ↦
                          elim (Option-cases (read_response json (take 1048576 msg))) [
                            | inl unread ↦
                                rw (free, timed, set, connected, written, sends, came, unread)
                                  (inl (remove_added address c.db (ground arith)))
                            | inr (resp, is_resp) ↦ elim (Bool-cases (resp.message_id == id)) [
                              | inr other ↦
                                  rw
                                    (
                                      free, timed, set, connected, written, sends, came, is_resp,
                                      other,
                                    )
                                    (inl (remove_added address c.db (ground arith)))
                              | inl same ↦
                                  rw
                                    (
                                      free, timed, set, connected, written, sends, came, is_resp,
                                      same,
                                    )
                                    (
                                      record {
                                        sent = sent;
                                        msg = msg;
                                        resp = resp;
                                        written = written;
                                        came = came;
                                        is_resp = is_resp;
                                        same_id = (==_iff resp.message_id id).0 same;
                                        is_message = refl;
                                      },
                                      remove_added address c.db (ground arith),
                                    )
                            ]
                          ]
                    ]
                  ]
                ]
          ]
        ]
      ]
    ]

-- What the core has written is a text.
pub written_text :
    (json : Json) (p : ServerMessagePacket) (msg : List ℕ)
    → server_to_json json p ≡ some msg
    → from_utf8 msg ≡ some msg
unfolding server_to_json from_utf8
written_text json p msg written = rw (json.server_is_utf8 p msg written) refl

-- When the calls succeed and the core's answer comes back, the client's exchange returns a response
-- that answers its message: on a database whose accounts and ledger agree, for a core that draws an
-- id other than the seed account's and can write its response, which fits into the client's buffer of a
-- mebibyte, from a path that is free.
pub send_and_recv_msg-Answers :
    (engine : Engine) (debug_sql : SqlError → String) (json : Json) (fresh : Fresh) (wire : Wire)
    (address : Address) (id : Uuid) (message : ClientMessage) (files : Conn (List Address))
    (sent msg : List ℕ) (c c' : Conn Database)
    → IsConsistent c.db
    → fresh.id ≢ seed_account_id
    → client_to_json json (new_client_packet id message) ≡ some sent
    → handler engine debug_sql json fresh sent c ≡ (ok (some msg), c')
    → wire.recv sent ≡ some msg
    → length msg ≤ 1048576
    → mem_address address files.db || wire.refused ≡ false
    → wire.sets_timeout ≡ true
    → wire.sets_options ≡ true
    → wire.connects ≡ true
    → wire.sends ≡ true
    → (m : ServerMessage) × ((send_and_recv_msg {E = Unit {0}} json wire address id message files).0
        ≡ ok (some m))
      × Answers engine fresh c.db message m c'.db
unfolding execute send_and_recv_msg exchange bind_socket remove_socket
send_and_recv_msg-Answers engine debug_sql json fresh wire address id message files sent msg c c'
      ready ne written handled came fits free timed set connects sends =
    let served =
      subst (Serves json engine fresh sent c.db) handled
        (handler-Serves engine debug_sql json fresh sent c ready ne) in
    let (resp, is_resp, same_id, answers) =
      subst (Exchanges engine json fresh id message c.db) handled
        (handler-Exchanges engine debug_sql json fresh id message sent c ready ne written) in
    let read : read_response json (take 1048576 msg) ≡ some resp =
      rw (take_all 1048576 msg fits, read_response, written_text json served.0.resp msg served.1)
        is_resp in
    (
      resp.message,
      rw
          (
            free,
            timed,
            set,
            connects,
            written,
            sends,
            came,
            read,
            (==_iff resp.message_id id).1 same_id,
          )
          refl,
      answers,
    )
