-- ===== src/Core/Server/Runs.antt =====
-- A whole run of the core, `main` of src/bin/core.rs: it ends, in a database that processes come to, and
-- that extends the one it began with.
use Prim.Native.String.{String}
use capycoin.Base.{ℕ, ◌<◌, ◌≡◌, ◌≢◌, refl, Bool, true, false, Option, none, some, List}
use capycoin.Sqlite.{Engine, SqlError, Outcome, ok, err, panic, Conn}
use capycoin.Database.{Database}
use capycoin.Account.{seed_account_id}
use capycoin.Message.{Json}
use capycoin.Core.{AppError, handler}
use capycoin.Core.Extends.{Extends, Extends-of_same, Extends-trans, Answers-Extends, start-Extends}
use capycoin.Core.Handler.{Serves, handler-Serves}
use capycoin.Core.Reach.{Reach, begin, handle, stop, Reach-Keeps}
use capycoin.Core.Server.{Server, Surroundings, main}
use capycoin.Core.Server.Keeps.{IsKept, main-IsKept}

module _ (engine : Engine) (debug_sql : SqlError → String) (json : Json) (env : Surroundings)
    (unlike_seed : (i : ℕ) → (env.fresh i).id ≢ seed_account_id) where
  Reach-IsKept : IsKept engine debug_sql json env (Reach engine debug_sql json)
  Reach-IsKept = record {
    begins = λ c h. begin env.now c h refl refl;
    handles = λ i msg c h. handle (env.fresh i) msg c h (unlike_seed i) refl refl;
    stops = λ d h. stop h;
  }

  Serves-Extends :
      (i : ℕ) (msg : List ℕ) (before : Database)
      (r : Outcome AppError (Option (List ℕ)) × Conn Database)
      → Serves json engine (env.fresh i) msg before r
      → Extends before r.1.db
  Serves-Extends i msg before (ok (some bytes), c) (s, _) =
      Answers-Extends engine (env.fresh i) before s.packet.message s.resp.message c.db s.answers
  Serves-Extends i msg before (ok none, c) (same, _) = Extends-of_same before c.db same
  Serves-Extends i msg before (err e, c) (same, _, _) = Extends-of_same before c.db same
  Serves-Extends i msg before (panic, c) (s, _) =
      Answers-Extends engine (env.fresh i) before s.packet.message s.resp.message c.db s.answers

  Extends-IsKept :
      (d : Database)
      → IsKept engine debug_sql json env
          (λ running e. Reach engine debug_sql json running e × Extends d e)
  Extends-IsKept d = record {
    begins = λ c (r, h). (begin env.now c r refl refl, start-Extends engine env.now d c h);
    handles = λ i msg c (r, h). (
      handle (env.fresh i) msg c r (unlike_seed i) refl refl,
      Extends-trans d c.db (handler engine debug_sql json (env.fresh i) msg c).1.db h (
          Serves-Extends i msg c.db (handler engine debug_sql json (env.fresh i) msg c) (
            handler-Serves engine debug_sql json (env.fresh i) msg c
              (Reach-Keeps engine debug_sql json true c.db r) (unlike_seed i))),
    );
    stops = λ e (r, h). (stop r, h);
  }

-- A whole run of the core ends: if `running` is read as false in some round, `main` has one result
-- for all fuel beyond that round, and from a database that the processes come to it ends in another
-- one, for ids that are never the seed account's.
pub main-Reach :
    (engine : Engine) (debug_sql : SqlError → String) (json : Json) (env : Surroundings)
    (file : Bool) (d : Database) (n : ℕ)
    → Reach engine debug_sql json false d
    → ((i : ℕ) → (env.fresh i).id ≢ seed_account_id)
    → (env.rounds n).running ≡ false
    → (r : Outcome AppError (Unit {0}) × Server Database) × ((fuel : ℕ)
        → n < fuel
        → main engine debug_sql json env fuel file d ≡ some r)
      × Reach engine debug_sql json false r.1.con.db
main-Reach engine debug_sql json env file d n reached unlike_seed stops =
    main-IsKept engine debug_sql json env (Reach engine debug_sql json)
      (Reach-IsKept engine debug_sql json env unlike_seed) file d n reached stops

-- History is kept: a whole run of the core, whatever calls fail and whatever bytes it receives, ends in
-- a database that extends the one that it began with. Every account is still there under its id and
-- with the time of its creation, in the same order, and every entry of the ledger is there unchanged,
-- in the same order, before the new ones. The run begins on a database that processes come to, is
-- interrupted in some round, and draws no id that is the seed account's.
pub main-Extends :
    (engine : Engine) (debug_sql : SqlError → String) (json : Json) (env : Surroundings)
    (file : Bool) (d : Database) (n : ℕ)
    → Reach engine debug_sql json false d
    → ((i : ℕ) → (env.fresh i).id ≢ seed_account_id)
    → (env.rounds n).running ≡ false
    → (r : Outcome AppError (Unit {0}) × Server Database) × ((fuel : ℕ)
        → n < fuel
        → main engine debug_sql json env fuel file d ≡ some r)
      × Extends d r.1.con.db
main-Extends engine debug_sql json env file d n reached unlike_seed stops =
    let (r, settled, (_, extends)) =
      main-IsKept engine debug_sql json env _
        (Extends-IsKept engine debug_sql json env unlike_seed d) file d n
        (reached, Extends-of_same d d refl) stops in
    (r, settled, extends)
