-- ===== src/Core/Server/Keeps.antt =====
-- What a run of `main` of src/bin/core.rs keeps, because its start, its handling of a datagram and its
-- stop keep it.
use mathlib.Core.Path.{subst}
use mathlib.Core.Option
use Prim.Native.String.{String}
use capycoin.Base.{
  take, ℕ, zero, suc, ◌+◌, ◌<◌, ◌≡◌, Bool, true, false, Option, none, some, List, [], Bool-cases,
  inl, inr, arith,
}
use capycoin.Sqlite.{is_ok, Engine, SqlError, Outcome, ok, err, panic, Conn, Sql}
use capycoin.Database.{Database}
use capycoin.Message.{Json}
use capycoin.Core.{AppError, handler, start}
use capycoin.Core.Reach.{is_alive}
use capycoin.Core.Server.{
  Recv, datagram, failed, Setup, Server, buf_size, continue, finish_round, serve_round, serve,
  prepare, shut_down, serve_after, socket_server, Surroundings, close, run_server, open_database,
  main,
}
use capycoin.Core.Server.Stops.{main-Settled}

-- A property of a process (`true` while it runs its loop) and its database that the start, the handling
-- of each datagram and the end of the loop keep.
pub record IsKept (engine : Engine) (debug_sql : SqlError → String) (json : Json)
    (env : Surroundings) (Property : Bool → Database → Type 0) : Type 0 where
  pub begins :
      (c : Conn Database)
      → Property false c.db
      → Property (is_ok (start engine env.now c)) (start engine env.now c).1.db
  pub handles :
      (i : ℕ) (msg : List ℕ) (c : Conn Database)
      → Property true c.db
      → Property
          (is_alive (handler engine debug_sql json (env.fresh i) msg c))
          (handler engine debug_sql json (env.fresh i) msg c).1.db
  pub stops : (d : Database) → Property true d → Property false d

module _ (engine : Engine) (debug_sql : SqlError → String) (json : Json) (env : Surroundings)
    (Property : Bool → Database → Type 0) (kept : IsKept engine debug_sql json env Property) where
  -- A run that has ended has the property.
  abbrev Ends : {A : Type 0} → Option (A × Server Database) → Type 0
  Ends none = Unit
  Ends (some (r, s)) = Property false s.con.db

  -- A round that has ended: the loop goes on, or stops, or the process is gone.
  abbrev Goes : Outcome AppError Bool × Server Database → Type 0
  Goes (ok b, s) = Property true s.con.db
  Goes (err e, s) = Property false s.con.db
  Goes (panic, s) = Property false s.con.db

  finish_round-Goes :
      (sends : Bool) (pathname : Option ℕ) (s : Server Database)
      (x : Outcome AppError (Option (List ℕ)) × Conn Database)
      → Property (is_alive x) x.1.db
      → Goes (finish_round sends pathname s x)
  finish_round-Goes sends pathname s (ok (some resp), c) h = h
  finish_round-Goes sends pathname s (ok none, c) h = h
  finish_round-Goes sends pathname s (err e, c) h = h
  finish_round-Goes sends pathname s (panic, c) h = h

  continue-Ends :
      (rest : Server Database → Option (Outcome AppError (Unit {0}) × Server Database))
      (x : Outcome AppError Bool × Server Database)
      → Goes x
      → ((s : Server Database) → Property true s.con.db → Ends (rest s))
      → Ends (continue rest x)
  continue-Ends rest (ok true, s) h k = k s h
  continue-Ends rest (ok false, s) h k = kept.stops _ h
  continue-Ends rest (err e, s) h k = h
  continue-Ends rest (panic, s) h k = h

  shut_down-Ends :
      (setup : Setup) (o : Option (Outcome AppError (Unit {0}) × Server Database))
      → Ends o
      → Ends (Option.map (shut_down setup) o)
  shut_down-Ends setup none h = tt
  shut_down-Ends setup (some (ok a, s)) h = elim (Bool-cases setup.shuts_down) [
    | inl shuts ↦ rw shuts h
    | inr fails ↦ rw fails h
  ]
  shut_down-Ends setup (some (err e, s)) h = h
  shut_down-Ends setup (some (panic, s)) h = h

  abbrev func : ℕ → List ℕ → Sql Database AppError (Option (List ℕ))
  func i = handler engine debug_sql json (env.fresh i)

  recv-Goes :
      (i : ℕ) (sends running : Bool) (recv : Recv) (s : Server Database)
      → Property true s.con.db
      → Goes (serve_round func i (record { running = running; recv = recv; sends = sends }) s)
  unfolding serve_round
  recv-Goes i sends running (datagram pathname bytes) s h =
      finish_round-Goes sends pathname s (func i (take buf_size bytes) s.con)
        (kept.handles i (take buf_size bytes) s.con h)
  recv-Goes i sends running (failed kind) s h = h

  serve-Ends :
      (fuel i : ℕ) (s : Server Database)
      → Property true s.con.db
      → Ends (serve func env.rounds fuel i s)
  unfolding serve
  serve-Ends zero i s h = tt
  serve-Ends (suc fuel) i s h = elim (Bool-cases (env.rounds i).running) [
    | inr stopped ↦ rw (serve, stopped) (kept.stops _ h)
    | inl running ↦
        rw (serve, running)
          (continue-Ends (serve func env.rounds fuel (i + 1)) _
            (recv-Goes i (env.rounds i).sends (env.rounds i).running (env.rounds i).recv s h)
            (serve-Ends fuel (i + 1)))
  ]

  -- Before the loop nothing happens to the database.
  prepared_db : (setup : Setup) (s : Server Database) → (prepare setup s).1.con ≡ s.con
  prepared_db setup s = ground arith

  serve_after-Ends :
      (fuel : ℕ) (x : Outcome AppError (Unit {0}) × Server Database)
      → Property true x.1.con.db
      → Ends (serve_after func env.rounds env.setup fuel x)
  serve_after-Ends fuel (ok a, s) h = shut_down-Ends env.setup _ (serve-Ends fuel 0 s h)
  serve_after-Ends fuel (err e, s) h = kept.stops _ h
  serve_after-Ends fuel (panic, s) h = kept.stops _ h

  close-Ends :
      (o : Option (Outcome AppError (Unit {0}) × Server Database))
      → Ends o
      → Ends (Option.map (close engine debug_sql json env) o)
  close-Ends none h = tt
  close-Ends (some (ok a, s)) h = elim (Bool-cases env.closes) [
    | inl closes ↦ rw closes h
    | inr fails ↦ rw fails h
  ]
  close-Ends (some (err e, s)) h = h
  close-Ends (some (panic, s)) h = h

  run_server-Ends :
      (fuel : ℕ) (file : Bool) (x : Outcome AppError (Unit {0}) × Conn Database)
      → Property (is_ok x) x.1.db
      → Ends (run_server engine debug_sql json env fuel file x)
  unfolding socket_server
  run_server-Ends fuel file (ok a, c) h = close-Ends _ (
      serve_after-Ends fuel (prepare env.setup (record { con = c; file = file; outbox = [] }))
        (rw (prepared_db env.setup (record { con = c; file = file; outbox = [] })) h))
  run_server-Ends fuel file (err e, c) h = h
  run_server-Ends fuel file (panic, c) h = h

  open_database-Ends :
      (fuel : ℕ) (file : Bool) (d : Database) (opens : Option SqlError)
      → Property false d
      → Ends (open_database engine debug_sql json env fuel file d opens)
  open_database-Ends fuel file d none h =
      run_server-Ends fuel file (start engine env.now (record { db = d; calls = 0 }))
        (kept.begins (record { db = d; calls = 0 }) h)
  open_database-Ends fuel file d (some e) h = h

  pub main-IsKept :
      (file : Bool) (d : Database) (n : ℕ)
      → Property false d
      → (env.rounds n).running ≡ false
      → (r : Outcome AppError (Unit {0}) × Server Database) × ((fuel : ℕ)
          → n < fuel
          → main engine debug_sql json env fuel file d ≡ some r)
        × Property false r.1.con.db
  unfolding main
  main-IsKept file d n holds stops =
      let (r, settled) = main-Settled engine debug_sql json env file d n stops in
      (
        r,
        settled,
        subst Ends (settled (suc n) (omega arith))
            (open_database-Ends (suc n) file d env.opens holds),
      )
