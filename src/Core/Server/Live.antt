-- ===== src/Core/Server/Live.antt =====
-- The core answers: what a client sends to `socket_server` of src/bin/core.rs is handled and answered in
-- the same round, and the answer stays sent.
use Prim.Native.String.{String}
use mathlib.Core.Path.{subst}
use mathlib.Core.List.{Mem, mem-cons}
use mathlib.Core.Logic.Or
use capycoin.Base.{
  take, take_all, ℕ, zero, suc, ◌≤◌, ◌<◌, ◌≡◌, ◌≢◌, refl, Bool, true, false, Option, none, some,
  List, arith, length, sym, ◌-◌,
}
use capycoin.Sqlite.{Engine, SqlError, Outcome, ok, err, panic, Conn, Sql}
use capycoin.Database.{Uuid, Database}
use capycoin.Account.{seed_account_id}
use capycoin.Ledger.Consistent.{IsConsistent}
use capycoin.Message.{
  ClientMessage, ServerMessagePacket, Json, client_to_json, server_from_json, new_client_packet,
}
use capycoin.Core.{AppError, Fresh, handler}
use capycoin.Core.Answers.{Answers}
use capycoin.Core.Handler.{Serves, handler-Serves}
use capycoin.Core.Exchange.{Exchanges, handler-Exchanges}
use capycoin.Core.Reach.{is_alive}
use capycoin.Core.Server.{Recv, datagram, failed, Round, Server, buf_size, serve}
use capycoin.Core.Server.Trace.{
  after_recv, goes_on, sent_reply, after_reply, conn_at, outbox_at, server_at, Passes, serve-at,
}
use capycoin.Core.Server.Outbox.{mem-outbox_at}

-- The answer to the message `m` under its id, with its bytes among what was sent to the client.
pub record Answered (engine : Engine) (json : Json) (fresh : Fresh) (before : Database) (a : ℕ)
    (id : Uuid) (m : ClientMessage) (outbox : List (ℕ × List ℕ)) (after : Database) : Type 0 where
  pub bytes : List ℕ
  pub resp : ServerMessagePacket
  pub is_sent : Mem (a, bytes) outbox
  pub is_read : server_from_json json bytes ≡ some resp
  pub same_id : resp.message_id ≡ id
  pub answers : Answers engine fresh before m resp.message after

reply-Answered :
    (engine : Engine) (json : Json) (fresh : Fresh) (before : Database) (a : ℕ) (id : Uuid)
    (m : ClientMessage) (outbox : List (ℕ × List ℕ))
    (r : Outcome AppError (Option (List ℕ)) × Conn Database)
    → is_alive r ≡ true
    → Exchanges engine json fresh id m before r
    → Answered engine json fresh before a id m (sent_reply true (some a) r.0 outbox) r.1.db
reply-Answered engine json fresh before a id m outbox (ok (some bytes), c) alive
      (resp, read, same_id, answers) =
    record {
      bytes = bytes;
      resp = resp;
      is_sent = mem-cons.1 (Or.inl refl);
      is_read = read;
      same_id = same_id;
      answers = answers;
    }
reply-Answered engine json fresh before a id m outbox (ok none, c) alive h = absurd h
reply-Answered engine json fresh before a id m outbox (err e, c) alive h = absurd h
reply-Answered engine json fresh before a id m outbox (panic, c) alive h = cc

Serves-IsConsistent :
    (engine : Engine) (json : Json) (fresh : Fresh) (msg : List ℕ) (before : Database)
    (r : Outcome AppError (Option (List ℕ)) × Conn Database)
    → IsConsistent before
    → is_alive r ≡ true
    → Serves json engine fresh msg before r
    → IsConsistent r.1.db
Serves-IsConsistent engine json fresh msg before (ok (some bytes), c) ready alive h = h.0.ready
Serves-IsConsistent engine json fresh msg before (ok none, c) ready alive h =
    subst IsConsistent (sym h.0) ready
Serves-IsConsistent engine json fresh msg before (err e, c) ready alive h =
    subst IsConsistent (sym h.0) ready
Serves-IsConsistent engine json fresh msg before (panic, c) ready alive h = cc

module _ (engine : Engine) (debug_sql : SqlError → String) (json : Json) (fresh : ℕ → Fresh) where
  -- The closure of `main`, as the i-th round calls it.
  abbrev pub handler_at : ℕ → List ℕ → Sql Database AppError (Option (List ℕ))
  handler_at i = handler engine debug_sql json (fresh i)

  module _ (unlike_seed : (i : ℕ) → (fresh i).id ≢ seed_account_id) where
    recv-IsConsistent :
        (i : ℕ) (recv : Recv) (c : Conn Database)
        → goes_on handler_at i recv c ≡ true
        → IsConsistent c.db
        → IsConsistent (after_recv handler_at i recv c).db
    recv-IsConsistent i (datagram pathname bytes) c alive ready =
        Serves-IsConsistent engine json (fresh i) (take buf_size bytes) c.db
          (handler_at i (take buf_size bytes) c) ready alive
          (handler-Serves engine debug_sql json (fresh i) (take buf_size bytes) c ready
            (unlike_seed i))
    recv-IsConsistent i (failed kind) c alive ready = ready

    -- A datagram that came whole, told by its bytes.
    bytes-Answered :
        (i a : ℕ) (id : Uuid) (m : ClientMessage) (sent bytes : List ℕ) (c : Conn Database)
        (outbox : List (ℕ × List ℕ))
        → client_to_json json (new_client_packet id m) ≡ some sent
        → bytes ≡ sent
        → IsConsistent c.db
        → is_alive (handler_at i bytes c) ≡ true
        → Answered engine json
            (fresh i)
            c.db
            a
            id
            m
            (sent_reply true (some a) (handler_at i bytes c).0 outbox)
            (handler_at i bytes c).1.db
    bytes-Answered i a id m sent bytes c outbox written whole ready alive =
        reply-Answered engine json (fresh i) c.db a id m outbox (handler_at i bytes c) alive (
          handler-Exchanges engine debug_sql json (fresh i) id m bytes c ready (unlike_seed i)
            (rw whole written))

    recv-Answered :
        (i a : ℕ) (id : Uuid) (m : ClientMessage) (sent : List ℕ) (sends : Bool) (recv : Recv)
        (c : Conn Database) (outbox : List (ℕ × List ℕ))
        → client_to_json json (new_client_packet id m) ≡ some sent
        → length sent ≤ buf_size
        → recv ≡ datagram (some a) sent
        → sends ≡ true
        → IsConsistent c.db
        → goes_on handler_at i recv c ≡ true
        → Answered engine json
            (fresh i)
            c.db
            a
            id
            m
            (after_reply handler_at i sends recv c outbox)
            (after_recv handler_at i recv c).db
    recv-Answered i a id m sent sends recv c outbox written fits came is_sent ready =
        subst
          (λ v.
            goes_on handler_at i v c ≡ true
            → Answered engine json (fresh i) c.db a id m (after_reply handler_at i sends v c outbox)
                (after_recv handler_at i v c).db)
          (sym came)
          (subst
            (λ b.
              is_alive (handler_at i (take buf_size sent) c) ≡ true
              → Answered engine json (fresh i) c.db a id m
                  (sent_reply b (some a) (handler_at i (take buf_size sent) c).0 outbox)
                  (handler_at i (take buf_size sent) c).1.db)
            (sym is_sent)
            (bytes-Answered i a id m sent (take buf_size sent) c outbox written
              (take_all buf_size sent fits) ready))

    module _ (rounds : ℕ → Round) (s : Server Database) (ready : IsConsistent s.con.db) where
      conn_at-IsConsistent :
          (i : ℕ)
          → ((j : ℕ) → j < i → Passes handler_at rounds s j)
          → IsConsistent (conn_at handler_at rounds s i).db
      unfolding conn_at
      conn_at-IsConsistent zero pass = ready
      conn_at-IsConsistent (suc i) pass =
          recv-IsConsistent i (rounds i).recv (conn_at handler_at rounds s i)
            (pass i (omega arith)).1 (conn_at-IsConsistent i (λ j h. pass j (omega arith)))

      round-Answered :
          (i a : ℕ) (id : Uuid) (m : ClientMessage) (sent : List ℕ)
          → ((j : ℕ) → j < suc i → Passes handler_at rounds s j)
          → client_to_json json (new_client_packet id m) ≡ some sent
          → length sent ≤ buf_size
          → (rounds i).recv ≡ datagram (some a) sent
          → (rounds i).sends ≡ true
          → Answered engine json
              (fresh i)
              (conn_at handler_at rounds s i).db
              a
              id
              m
              (outbox_at handler_at rounds s (suc i))
              (conn_at handler_at rounds s (suc i)).db
      unfolding conn_at outbox_at
      round-Answered i a id m sent pass written fits came is_sent =
          recv-Answered i a id m sent (rounds i).sends (rounds i).recv
            (conn_at handler_at rounds s i) (outbox_at handler_at rounds s i) written fits came
            is_sent (conn_at-IsConsistent i (λ j h. pass j (omega arith))) (pass i (omega arith)).1

-- A client's message is answered: when the loop of the core runs on a database whose accounts and
-- ledger agree, passes n rounds and is interrupted, it returns, and every packet that a client wrote
-- for a message, that came whole in one of those rounds from a socket with a pathname and whose
-- response could be sent, has been answered by then: among the responses sent to that pathname is one
-- that reads as a packet with the message's id and that answers the message, from the database before
-- that round to the one after it. No id that the core draws is the seed account's. A round is passed
-- when `recv_from` gives no fatal error and the handling does not panic.
pub serve-Answered :
    (engine : Engine) (debug_sql : SqlError → String) (json : Json) (fresh : ℕ → Fresh)
    (rounds : ℕ → Round) (s : Server Database) (n i a : ℕ) (id : Uuid) (m : ClientMessage)
    (sent : List ℕ)
    → ((j : ℕ) → (fresh j).id ≢ seed_account_id)
    → IsConsistent s.con.db
    → ((j : ℕ) → j < n → Passes (handler_at engine debug_sql json fresh) rounds s j)
    → (rounds n).running ≡ false
    → i < n
    → client_to_json json (new_client_packet id m) ≡ some sent
    → length sent ≤ buf_size
    → (rounds i).recv ≡ datagram (some a) sent
    → (rounds i).sends ≡ true
    → (s' : Server Database) × (serve (handler_at engine debug_sql json fresh) rounds (suc n) 0 s
        ≡ some (ok tt, s'))
      × Answered engine json
          (fresh i)
          (conn_at (handler_at engine debug_sql json fresh) rounds s i).db
          a
          id
          m
          s'.outbox
          (conn_at (handler_at engine debug_sql json fresh) rounds s (suc i)).db
serve-Answered engine debug_sql json fresh rounds s n i a id m sent unlike_seed ready pass stops
      below written fits came is_sent =
    let func = handler_at engine debug_sql json fresh in
    let answered =
      round-Answered engine debug_sql json fresh unlike_seed rounds s ready i a id m sent
        (λ j h. pass j (omega arith)) written fits came is_sent in
    (
      server_at func rounds s n,
      serve-at func rounds s n pass stops,
      record {
        bytes = answered.bytes;
        resp = answered.resp;
        is_sent =
            mem-outbox_at func rounds s (a, answered.bytes) (suc i) (n - suc i) n (omega arith)
              answered.is_sent;
        is_read = answered.is_read;
        same_id = answered.same_id;
        answers = answered.answers;
      },
    )
