-- ===== src/Core/Server.antt =====
-- `socket_server` of src/bin/core.rs: the loop that receives datagrams and sends the responses, and
-- `main` around it.
pub mod Stops
pub mod Trace
pub mod Keeps
pub mod Runs
pub mod Outbox
pub mod Live
use capycoin.Base.{
  ℕ, zero, suc, ◌+◌, ◌*◌, Bool, true, false, not, Option, none, some, List, [], ◌∷◌, if◌then◌else◌,
  ◌&&◌, take,
}
use capycoin.Sqlite.{
  Engine, SqlError, Outcome, ok, err, panic, Conn, Sql, ◌>>=◌, ◌>>◌, pure, raise_if, assert,
}
use capycoin.Core.{AppError, Fresh, socket_error, sql_error, handler, start}
use capycoin.Database.{Time, Database}
use capycoin.Message.{Json}
use Prim.Native.String.{String}
use mathlib.Core.Option

-- `io::ErrorKind`, as far as the loop tells the kinds apart.
pub data ErrorKind : Type 0 where
  would_block interrupted timed_out other_kind : ErrorKind

-- What `recv_from` gives: a datagram, with the pathname of the sender's socket if it has one, or an
-- error.
pub data Recv : Type 0 where
  datagram : (pathname : Option ℕ) (bytes : List ℕ) → Recv
  failed : ErrorKind → Recv

-- What the system gives to one round of the loop: what `running.load` reads, what `recv_from` gives,
-- and whether `send_to` succeeds.
pub record Round : Type 0 where
  pub running : Bool
  pub recv : Recv
  pub sends : Bool

-- The calls before and after the loop, each with whether it succeeds.
pub record Setup : Type 0 where
  pub removes : Bool
  pub binds : Bool
  pub sets_timeout : Bool
  pub sets_options : Bool
  pub sets_handler : Bool
  pub shuts_down : Bool

-- The connection of the handler, whether the socket's file is there, and the responses that have been
-- sent so far, each with the pathname it went to, the last one first.
pub record Server (D : Type 0) : Type 0 where
  pub con : Conn D
  pub file : Bool
  pub outbox : List (ℕ × List ℕ)

-- `1024 * 1024`, the length of the buffer. Of a longer datagram the rest is lost.
abbrev pub buf_size : ℕ
buf_size = 1024 * 1024

-- `match err.kind()`: whether the loop continues.
abbrev pub retries : ErrorKind → Bool
retries would_block = true
retries interrupted = true
retries timed_out = true
retries other_kind = false

abbrev pub send_to : Bool → Option ℕ → List ℕ → List (ℕ × List ℕ) → List (ℕ × List ℕ)
send_to sends none resp outbox = outbox
send_to sends (some pathname) resp outbox = if sends then (pathname, resp) ∷ outbox else outbox

module _ {D : Type 0} where
  -- The end of a round: the response is sent, if there is one; an error is printed. The value tells
  -- whether the loop goes on.
  abbrev pub finish_round :
      Bool
      → Option ℕ
      → Server D
      → Outcome AppError (Option (List ℕ)) × Conn D
      → Outcome AppError Bool × Server D
  finish_round sends pathname s (ok (some resp), c) =
      (ok true, record s { con = c; outbox = send_to sends pathname resp s.outbox })
  finish_round sends pathname s (ok none, c) = (ok true, record s { con = c })
  finish_round sends pathname s (err e, c) = (ok true, record s { con = c })
  finish_round sends pathname s (panic, c) = (panic, record s { con = c })

  -- What comes before the loop, `?` and `expect` in the order of the calls.
  abbrev pub prepare : Setup → Server D → Outcome AppError (Unit {0}) × Server D
  prepare setup s =
      if s.file && not setup.removes
      then (err socket_error, s)
      else if not setup.binds
      then (err socket_error, record s { file = false })
      else if not setup.sets_timeout
      then (err socket_error, record s { file = true })
      else if not (setup.sets_options && setup.sets_handler)
      then (panic, record s { file = true })
      else (ok tt, record s { file = true })

  -- `socket.shutdown(…)?`
  abbrev pub shut_down :
      Setup → Outcome AppError (Unit {0}) × Server D → Outcome AppError (Unit {0}) × Server D
  shut_down setup (ok a, s) = if setup.shuts_down then (ok tt, s) else (err socket_error, s)
  shut_down setup (err e, s) = (err e, s)
  shut_down setup (panic, s) = (panic, s)

  -- After a round: the rest of the loop, or its end.
  abbrev pub continue :
      (Server D → Option (Outcome AppError (Unit {0}) × Server D))
      → Outcome AppError Bool × Server D
      → Option (Outcome AppError (Unit {0}) × Server D)
  continue rest (ok true, s) = rest s
  continue rest (ok false, s) = some (ok tt, s)
  continue rest (err e, s) = some (err e, s)
  continue rest (panic, s) = some (panic, s)

  -- The function `func` of the i-th round draws its ids and times anew.
  module _ (func : ℕ → List ℕ → Sql D AppError (Option (List ℕ))) where
    -- One round, once `running` was read as true.
    unfoldable pub serve_round : ℕ → Round → Server D → Outcome AppError Bool × Server D
    serve_round i round s = elim round.recv [
      | datagram pathname bytes ↦
          finish_round round.sends pathname s (func i (take buf_size bytes) s.con)
      | failed kind ↦ (ok (retries kind), s)
    ]

    module _ (rounds : ℕ → Round) where
      -- `while running.load(…) { … }` from the i-th round, on fuel.
      unfoldable pub serve : ℕ → ℕ → Server D → Option (Outcome AppError (Unit {0}) × Server D)
      serve zero i s = none
      serve (suc fuel) i s = elim (rounds i).running [
        | false ↦ some (ok tt, s)
        | true ↦ continue (serve fuel (i + 1)) (serve_round i (rounds i) s)
      ]

      abbrev pub serve_after :
          Setup
          → ℕ
          → Outcome AppError (Unit {0}) × Server D
          → Option (Outcome AppError (Unit {0}) × Server D)
      serve_after setup fuel (ok a, s) = Option.map (shut_down setup) (serve fuel 0 s)
      serve_after setup fuel (err e, s) = some (err e, s)
      serve_after setup fuel (panic, s) = some (panic, s)

      unfoldable pub socket_server :
          Setup → ℕ → Server D → Option (Outcome AppError (Unit {0}) × Server D)
      socket_server setup fuel s = serve_after setup fuel (prepare setup s)

-- What the system gives to a whole run: the opening and the closing of the database, the time of the
-- start, the calls around the loop, the rounds of the loop, and what each handling draws.
pub record Surroundings : Type 0 where
  pub opens : Option SqlError
  pub now : Time
  pub setup : Setup
  pub rounds : ℕ → Round
  pub fresh : ℕ → Fresh
  pub closes : Bool

module _ (engine : Engine) (debug_sql : SqlError → String) (json : Json) (env : Surroundings) where
  -- `con.close().unwrap()`
  abbrev pub close :
      Outcome AppError (Unit {0}) × Server Database → Outcome AppError (Unit {0}) × Server Database
  close (ok a, s) = if env.closes then (ok tt, s) else (panic, s)
  close (err e, s) = (err e, s)
  close (panic, s) = (panic, s)

  abbrev pub run_server :
      ℕ
      → Bool
      → Outcome AppError (Unit {0}) × Conn Database
      → Option (Outcome AppError (Unit {0}) × Server Database)
  run_server fuel file (ok a, c) = Option.map close (
      socket_server (λ i. handler engine debug_sql json (env.fresh i)) env.rounds env.setup fuel
        (record { con = c; file = file; outbox = [] }))
  run_server fuel file (err e, c) = some (err e, record { con = c; file = file; outbox = [] })
  run_server fuel file (panic, c) = some (panic, record { con = c; file = file; outbox = [] })

  -- `Connection::open(…)?`; a connection has made no call when it is opened.
  abbrev pub open_database :
      ℕ → Bool → Database → Option SqlError → Option (Outcome AppError (Unit {0}) × Server Database)
  open_database fuel file d none =
      run_server fuel file (start engine env.now (record { db = d; calls = 0 }))
  open_database fuel file d (some e) =
      some
        (err (sql_error e), record { con = record { db = d; calls = 0 }; file = file; outbox = [] })

  -- `main`, from a database and with or without the socket file of an earlier run.
  unfoldable pub main : ℕ → Bool → Database → Option (Outcome AppError (Unit {0}) × Server Database)
  main fuel file d = open_database fuel file d env.opens
