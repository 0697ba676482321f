-- ===== src/Core/Server/Stops.antt =====
-- The loop of `socket_server` (src/bin/core.rs) ends when it is interrupted.
use Prim.Native.String.{String}
use mathlib.Core.Option
use capycoin.Base.{
  ℕ, zero, suc, ◌+◌, ◌<◌, ◌≡◌, refl, Bool, true, false, Option, none, some, List, Bool-cases, inl,
  inr, arith, ap, [],
}
use capycoin.Sqlite.{Engine, SqlError, Outcome, ok, err, panic, Conn, Sql}
use capycoin.Database.{Database}
use capycoin.Message.{Json}
use capycoin.Core.{AppError, handler, start}
use capycoin.Core.Server.{
  Round, Setup, Server, continue, serve_round, serve, prepare, shut_down, serve_after,
  socket_server, Surroundings, close, run_server, open_database, main,
}

-- The result does not depend on the fuel, from `n` on.
abbrev pub Settled : {A : Type 0} → (ℕ → Option A) → ℕ → Type 0
Settled {A} run n = (r : A) × ((fuel : ℕ) → n < fuel → run fuel ≡ some r)

module _ {D : Type 0} where
  continue-Settled :
      (rest : ℕ → Server D → Option (Outcome AppError (Unit {0}) × Server D)) (n : ℕ)
      (x : Outcome AppError Bool × Server D)
      → ((s : Server D) → Settled (λ fuel. rest fuel s) n)
      → Settled (λ fuel. continue (rest fuel) x) n
  continue-Settled rest n (ok true, s) h = h s
  continue-Settled rest n (ok false, s) h = ((ok tt, s), λ fuel _. refl)
  continue-Settled rest n (err e, s) h = ((err e, s), λ fuel _. refl)
  continue-Settled rest n (panic, s) h = ((panic, s), λ fuel _. refl)

  module _ (func : ℕ → List ℕ → Sql D AppError (Option (List ℕ))) (rounds : ℕ → Round) where
    pub serve_stopped :
        (i : ℕ) (s : Server D)
        → (rounds i).running ≡ false
        → (n fuel : ℕ) → n < fuel
        → serve func rounds fuel i s ≡ some (ok tt, s)
    unfolding serve
    serve_stopped i s stopped n zero h = absurd (omega arith)
    serve_stopped i s stopped n (suc fuel) h = rw (serve, stopped) refl

    serve_running :
        (i : ℕ) (s : Server D)
        → (rounds i).running ≡ true
        → (n : ℕ)
        → Settled
            (λ fuel. continue (serve func rounds fuel (i + 1)) (serve_round func i (rounds i) s))
            n
        → Settled (λ fuel. serve func rounds fuel i s) (suc n)
    unfolding serve
    serve_running i s running n (r, h) = (r, go)
      where
        go : (fuel : ℕ) → suc n < fuel → serve func rounds fuel i s ≡ some r
        go zero below = absurd (omega arith)
        go (suc fuel) below = rw (serve, running) (h fuel (omega arith))

    serve-Settled :
        (n i j : ℕ) (s : Server D)
        → i + n ≡ j
        → (rounds j).running ≡ false
        → Settled (λ fuel. serve func rounds fuel i s) n
    serve-Settled zero i j s e stops =
        let same : j ≡ i = omega arith in ((ok tt, s), serve_stopped i s (rw (← same) stops) 0)
    serve-Settled (suc n) i j s e stops = elim (Bool-cases (rounds i).running) [
      | inr stopped ↦ ((ok tt, s), serve_stopped i s stopped (suc n))
      | inl running ↦ serve_running i s running n (
          continue-Settled (λ fuel. serve func rounds fuel (i + 1)) n
            (serve_round func i (rounds i) s)
            (λ s'. serve-Settled n (i + 1) j s' (omega arith) stops))
    ]

    serve_after-Settled :
        (setup : Setup) (n : ℕ)
        → (rounds n).running ≡ false
        → (x : Outcome AppError (Unit {0}) × Server D)
        → Settled (λ fuel. serve_after func rounds setup fuel x) n
    serve_after-Settled setup n stops (ok a, s) =
        let (r, h) = serve-Settled n 0 n s (omega arith) stops in
        (shut_down setup r, λ fuel below. ap (Option.map (shut_down setup)) (h fuel below))
    serve_after-Settled setup n stops (err e, s) = ((err e, s), λ fuel _. refl)
    serve_after-Settled setup n stops (panic, s) = ((panic, s), λ fuel _. refl)

module _ (engine : Engine) (debug_sql : SqlError → String) (json : Json) (env : Surroundings) where
  run_server-Settled :
      (n : ℕ) (file : Bool)
      → (env.rounds n).running ≡ false
      → (x : Outcome AppError (Unit {0}) × Conn Database)
      → Settled (λ fuel. run_server engine debug_sql json env fuel file x) n
  unfolding socket_server
  run_server-Settled n file stops (ok a, c) =
      let (r, h) =
        serve_after-Settled (λ i. handler engine debug_sql json (env.fresh i)) env.rounds env.setup
          n stops (prepare env.setup (record { con = c; file = file; outbox = [] })) in
      (
        close engine debug_sql json env r,
        λ fuel below. ap (Option.map (close engine debug_sql json env)) (h fuel below),
      )
  run_server-Settled n file stops (err e, c) = (_, λ fuel _. refl)
  run_server-Settled n file stops (panic, c) = (_, λ fuel _. refl)

-- The core's process ends: if `running` is read as false in some round, `main` has one result for
-- every fuel beyond that round.
pub main-Settled :
    (engine : Engine) (debug_sql : SqlError → String) (json : Json) (env : Surroundings)
    (file : Bool) (d : Database) (n : ℕ)
    → (env.rounds n).running ≡ false
    → Settled (λ fuel. main engine debug_sql json env fuel file d) n
unfolding main
main-Settled engine debug_sql json env file d n stops = go env.opens
  where
    go :
        (opens : Option SqlError)
        → Settled (λ fuel. open_database engine debug_sql json env fuel file d opens) n
    go none =
        run_server-Settled engine debug_sql json env n file stops
          (start engine env.now (record { db = d; calls = 0 }))
    go (some e) = (_, λ fuel _. refl)
