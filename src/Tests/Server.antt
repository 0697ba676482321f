-- ===== src/Tests/Server.antt =====
-- The loop of `socket_server` (src/bin/core.rs) and `main` on concrete rounds: nothing comes, a client
-- asks for a new account, a socket without a pathname sends an empty datagram, and the user interrupts.
use capycoin.Base.{
  take, ℕ, zero, suc, ◌<◌, ◌≡◌, refl, true, false, Option, none, some, List, [], ◌∷◌, arith, ap,
  ◌∙◌,
}
use capycoin.Base.Utf8.{from_utf8, is_utf8, is_utf8_from, advance}
use capycoin.Sqlite.{Outcome, ok, Sql, bind, from_outcome}
use capycoin.Database.{Database}
use capycoin.Message.{create_new_account, client_from_json}
use capycoin.Core.{AppError, handler}
use capycoin.Core.Reach.{Reach, empty, stop, is_alive}
use capycoin.Core.Server.{
  Recv, datagram, failed, timed_out, Round, Setup, Server, Surroundings, serve, serve_round, main,
}
use capycoin.Core.Server.Runs.{main-Reach, main-Extends}
use capycoin.Core.Extends.{Extends}
use capycoin.Core.Server.Trace.{Passes, conn_at, server_at, serve-at}
use capycoin.Core.Server.Live.{Answered, handler_at, serve-Answered}
use capycoin.Tests.Fixtures.{calm, today, alice, seeded, two_accounts}
use capycoin.Tests.Ready.{seeded-IsConsistent}
use capycoin.Tests.Codec.{codec, strokes}
use capycoin.Tests.Core.{
  debug_sql, fresh, fresh_ne_seed, request, request_served, request_reached, request_written,
}

abbrev round : Recv → Round
round recv = record { running = true; recv = recv; sends = true }

abbrev rounds : ℕ → Round
rounds zero = round (failed timed_out)
rounds (suc zero) = round (datagram (some 9) request)
rounds (suc (suc zero)) = round (datagram none [])
rounds _ = record { running = false; recv = failed timed_out; sends = true }

abbrev setup : Setup
setup = record {
  removes = true;
  binds = true;
  sets_timeout = true;
  sets_options = true;
  sets_handler = true;
  shuts_down = true;
}

abbrev env : Surroundings
env = record {
  opens = none;
  now = today;
  setup = setup;
  rounds = rounds;
  fresh = λ i. fresh;
  closes = true;
}

abbrev response : List ℕ
response = strokes 3 (strokes alice (strokes 2 []))

abbrev begun : Server Database
begun = record { con = seeded; file = true; outbox = [] }

abbrev func : ℕ → List ℕ → Sql Database AppError (Option (List ℕ))
func = handler_at calm debug_sql codec (λ i. fresh)

-- The empty datagram is no packet.
nothing_served : handler calm debug_sql codec fresh [] two_accounts ≡ (ok none, two_accounts)
unfolding handler client_from_json from_utf8 is_utf8 is_utf8_from advance bind from_outcome
nothing_served = refl

pass : (j : ℕ) → j < 3 → Passes func rounds begun j
unfolding conn_at take
pass zero h = (refl, refl)
pass (suc zero) h = (refl, ap is_alive request_served)
pass (suc (suc zero)) h = (
  refl,
  ap is_alive (
      ap (λ c. handler calm debug_sql codec fresh [] c) (ap (λ r. r.1) request_served)
      ∙ nothing_served),
)
pass (suc (suc (suc j))) h = absurd (omega arith)

-- The loop answers the client and creates its account.
served :
    serve func rounds 4 0 begun
    ≡ some (ok tt, record { con = two_accounts; file = true; outbox = (9, response) ∷ [] })
unfolding serve serve_round take
served = rw (request_served, nothing_served) refl

serve-at_example : serve func rounds 4 0 begun ≡ some (ok tt, server_at func rounds begun 3)
serve-at_example = serve-at func rounds begun 3 pass refl

serve-Answered_example :
    (s' : Server Database) × (serve func rounds 4 0 begun ≡ some (ok tt, s'))
    × Answered calm codec fresh
        (conn_at func rounds begun 1).db
        9
        3
        create_new_account
        s'.outbox
        (conn_at func rounds begun 2).db
serve-Answered_example =
    serve-Answered calm debug_sql codec (λ i. fresh) rounds begun 3 1 9 3 create_new_account request
      (λ i. fresh_ne_seed) seeded-IsConsistent pass refl (omega arith) request_written (omega arith)
      refl refl

abbrev no_tables : Database
no_tables = record { accounts = none; transactions = none }

main-Reach_example :
    (r : Outcome AppError (Unit {0}) × Server Database) × ((fuel : ℕ)
      → 3 < fuel
      → main calm debug_sql codec env fuel true no_tables ≡ some r)
    × Reach calm debug_sql codec false r.1.con.db
main-Reach_example =
    main-Reach calm debug_sql codec env true no_tables 3 (empty refl refl) (λ i. fresh_ne_seed) refl

-- The second run begins on the database that a client's request has left.
main-Extends_example :
    (r : Outcome AppError (Unit {0}) × Server Database) × ((fuel : ℕ)
      → 3 < fuel
      → main calm debug_sql codec env fuel true two_accounts.db ≡ some r)
    × Extends two_accounts.db r.1.con.db
main-Extends_example =
    main-Extends calm debug_sql codec env true two_accounts.db 3 (stop request_reached)
      (λ i. fresh_ne_seed) refl
