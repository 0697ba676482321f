-- ===== src/Core/Server/Trace.antt =====
-- The loop of `socket_server` (src/bin/core.rs) against a description of it round by round: the
-- connection before each round, and the responses that have been sent.
use capycoin.Base.{
  take, ℕ, zero, suc, ◌+◌, ◌<◌, ◌≡◌, refl, Bool, true, false, Option, none, some, List, ◌∷◌, arith,
  ◌∙◌,
}
use capycoin.Sqlite.{Outcome, ok, err, panic, Conn, Sql}
use capycoin.Core.{AppError}
use capycoin.Core.Reach.{is_alive}
use capycoin.Core.Server.{
  send_to, would_block, interrupted, timed_out, other_kind, Recv, datagram, failed, Round, Server,
  buf_size, finish_round, serve_round, serve,
}
use capycoin.Core.Server.Stops.{serve_stopped}

-- A response is delivered to a pathname, if there is one, when the send succeeds.
abbrev pub delivered : Bool → Option ℕ → List ℕ → List (ℕ × List ℕ) → List (ℕ × List ℕ)
delivered true (some pathname) resp outbox = (pathname, resp) ∷ outbox
delivered _ _ resp outbox = outbox

-- What has been sent after a handling: its response, if it has one.
abbrev pub sent_reply :
    Bool → Option ℕ → Outcome AppError (Option (List ℕ)) → List (ℕ × List ℕ) → List (ℕ × List ℕ)
sent_reply sends pathname (ok (some resp)) outbox = delivered sends pathname resp outbox
sent_reply sends pathname _ outbox = outbox

send_to-delivered :
    (sends : Bool) (pathname : Option ℕ) (resp : List ℕ) (outbox : List (ℕ × List ℕ))
    → send_to sends pathname resp outbox ≡ delivered sends pathname resp outbox
send_to-delivered true (some a) resp outbox = refl
send_to-delivered false (some a) resp outbox = refl
send_to-delivered true none resp outbox = refl
send_to-delivered false none resp outbox = refl

module _ {D : Type 0} (func : ℕ → List ℕ → Sql D AppError (Option (List ℕ))) where
  -- The handling of a datagram: of its first mebibyte.
  abbrev pub handled : ℕ → List ℕ → Conn D → Outcome AppError (Option (List ℕ)) × Conn D
  handled i bytes c = func i (take 1048576 bytes) c

  -- The connection after a round.
  abbrev pub after_recv : ℕ → Recv → Conn D → Conn D
  after_recv i (datagram pathname bytes) c = (handled i bytes c).1
  after_recv i (failed kind) c = c

  -- Whether the loop goes on after a round: not after a panic, nor after an error that is not one of
  -- waiting.
  abbrev pub goes_on : ℕ → Recv → Conn D → Bool
  goes_on i (datagram pathname bytes) c = is_alive (handled i bytes c)
  goes_on i (failed would_block) c = true
  goes_on i (failed interrupted) c = true
  goes_on i (failed timed_out) c = true
  goes_on i (failed other_kind) c = false

  -- What has been sent after a round.
  abbrev pub after_reply : ℕ → Bool → Recv → Conn D → List (ℕ × List ℕ) → List (ℕ × List ℕ)
  after_reply i sends (datagram pathname bytes) c outbox =
      sent_reply sends pathname (handled i bytes c).0 outbox
  after_reply i sends (failed kind) c outbox = outbox

  module _ (rounds : ℕ → Round) (s : Server D) where
    -- The connection before the i-th round.
    unfoldable pub conn_at : ℕ → Conn D
    conn_at zero = s.con
    conn_at (suc i) = after_recv i (rounds i).recv (conn_at i)

    -- What has been sent before the i-th round.
    unfoldable pub outbox_at : ℕ → List (ℕ × List ℕ)
    outbox_at zero = s.outbox
    outbox_at (suc i) = after_reply i (rounds i).sends (rounds i).recv (conn_at i) (outbox_at i)

    abbrev pub server_at : ℕ → Server D
    server_at i = record s { con = conn_at i; outbox = outbox_at i }

    -- The round is begun, and the loop goes on after it.
    abbrev pub Passes : ℕ → Type 0
    Passes i = ((rounds i).running ≡ true) × (goes_on i (rounds i).recv (conn_at i) ≡ true)

  finish_round-at :
      (sends : Bool) (pathname : Option ℕ) (s : Server D) (outbox : List (ℕ × List ℕ)) (c : Conn D)
      (x : Outcome AppError (Option (List ℕ)) × Conn D)
      → is_alive x ≡ true
      → finish_round sends pathname (record s { con = c; outbox = outbox }) x
        ≡ (ok true, record s { con = x.1; outbox = sent_reply sends pathname x.0 outbox })
  finish_round-at sends pathname s outbox c (ok (some resp), c') h =
      rw (send_to-delivered sends pathname resp outbox) refl
  finish_round-at sends pathname s outbox c (ok none, c') h = refl
  finish_round-at sends pathname s outbox c (err e, c') h = refl
  finish_round-at sends pathname s outbox c (panic, c') h = cc

  recv-at :
      (i : ℕ) (running sends : Bool) (recv : Recv) (s : Server D) (c : Conn D)
      (outbox : List (ℕ × List ℕ))
      → goes_on i recv c ≡ true
      → serve_round func i
          (record { running = running; recv = recv; sends = sends })
          (record s { con = c; outbox = outbox })
        ≡ (
          ok true,
          record s { con = after_recv i recv c; outbox = after_reply i sends recv c outbox },
        )
  unfolding serve_round
  recv-at i running sends (datagram pathname bytes) s c outbox h =
      finish_round-at sends pathname s outbox c (func i (take buf_size bytes) c) h
  recv-at i running sends (failed would_block) s c outbox h = refl
  recv-at i running sends (failed interrupted) s c outbox h = refl
  recv-at i running sends (failed timed_out) s c outbox h = refl
  recv-at i running sends (failed other_kind) s c outbox h = cc

  module _ (rounds : ℕ → Round) (s : Server D) where
    serve_round-at :
        (i : ℕ)
        → Passes rounds s i
        → serve_round func i (rounds i) (server_at rounds s i)
          ≡ (ok true, server_at rounds s (suc i))
    unfolding conn_at outbox_at
    serve_round-at i (_, goes) =
        recv-at i (rounds i).running (rounds i).sends (rounds i).recv s (conn_at rounds s i)
          (outbox_at rounds s i) goes

    serve_next :
        (fuel i : ℕ) (t t' : Server D)
        → (rounds i).running ≡ true
        → serve_round func i (rounds i) t ≡ (ok true, t')
        → serve func rounds (suc fuel) i t ≡ serve func rounds fuel (suc i) t'
    unfolding serve
    serve_next fuel i t t' running passed =
        let next : i + 1 ≡ suc i = omega arith in rw (serve, running, passed, next) refl

    serve_from :
        (k i n : ℕ)
        → i + k ≡ n
        → ((j : ℕ) → j < n → Passes rounds s j)
        → (rounds n).running ≡ false
        → serve func rounds (suc k) i (server_at rounds s i) ≡ some (ok tt, server_at rounds s n)
    serve_from zero i n e pass stops =
        let same : i ≡ n = omega arith in
        rw same (serve_stopped func rounds n (server_at rounds s n) stops 0 1 (omega arith))
    serve_from (suc k) i n e pass stops =
        let here = pass i (omega arith) in
        serve_next (suc k) i (server_at rounds s i) (server_at rounds s (suc i)) here.0
          (serve_round-at i here)
        ∙ serve_from k (suc i) n (omega arith) pass stops

-- The loop, interrupted at the n-th round after n rounds that it passes, ends with the connection and
-- the responses that the description gives: each datagram was handled once, in the order of their
-- receipt, on the connection that the one before it left and up to its first mebibyte, and its response
-- sent to the pathname it came from, if it has one and the send succeeds; and a wait that times out, is
-- interrupted or would block changes nothing.
pub serve-at :
    {D : Type 0} (func : ℕ → List ℕ → Sql D AppError (Option (List ℕ))) (rounds : ℕ → Round)
    (s : Server D) (n : ℕ)
    → ((j : ℕ) → j < n → Passes func rounds s j)
    → (rounds n).running ≡ false
    → serve func rounds (suc n) 0 s ≡ some (ok tt, server_at func rounds s n)
unfolding conn_at outbox_at
serve-at func rounds s n pass stops = serve_from func rounds s n 0 n (omega arith) pass stops
