-- ===== src/Gateway/Life.antt =====
-- The life of src/bin/client_gateway.rs: `main` makes the table of tokens, and then the server hands
-- the requests to the router. A request that panics is answered by `rouille`, and the process goes on.
pub mod Issues
pub mod Stands
pub mod Served
pub mod Keeps
pub mod Owners
use capycoin.Base.{◌≡◌, Bool, true, false, none, List, [], ◌∷◌, if◌then◌else◌}
use capycoin.Sqlite.{
  unwrapped, is_ok, Outcome, ok, err, panic, Engine, Conn, Sql, ◌>>=◌, ◌>>◌, pure, from_outcome,
}
use capycoin.Auth.{AuthError, AuthDatabase, create_auth_table}
use capycoin.Gateway.{Request, World, Libraries, Draw}
use capycoin.Gateway.Handlers.{router}

-- What the system gives to the start: whether the file of the table is opened, and is closed.
pub record Starts : Type 0 where
  pub opens : Bool
  pub closes : Bool

-- A call of the system that is unwrapped.
abbrev pub must : Bool → Outcome AuthError (Unit {0})
must done = if done then ok tt else panic

-- `main` up to `start_server`.
unfoldable pub make_table : Engine → Starts → Sql AuthDatabase AuthError (Unit {0})
make_table engine starts = do
  from_outcome (must starts.opens)
  (λ c. let (r, c') = create_auth_table engine c in (unwrapped r, c'))
  from_outcome (must starts.closes)

-- A request that was served, with what the system gave to its handling, and the connection, the
-- socket files and the messages that it found.
pub record Visit : Type 0 where
  pub draw : Draw
  pub request : Request
  pub world : Conn World

module _ (lib : Libraries) where
  -- The databases of tokens that the processes come to, one after the other, with whether a process
  -- serves requests, and the visits so far, the last one first. Visits at the same time are taken in
  -- the order of their transactions: the handling of a request reads the table or adds to it once.
  pub data Life : Bool → List Visit → AuthDatabase → Type 0 where
    empty : {d : AuthDatabase} → d.auth ≡ none → Life false [] d
    begin :
        {serving : Bool} {log : List Visit} {d : AuthDatabase} (starts : Starts)
        (c : Conn AuthDatabase)
        → Life false log c.db
        → is_ok (make_table lib.engine starts c) ≡ serving
        → (make_table lib.engine starts c).1.db ≡ d
        → Life serving log d
    serve :
        {log : List Visit} {d : AuthDatabase} (v : Visit)
        → Life true log v.world.db.auth
        → (router lib v.draw v.request v.world).1.db.auth ≡ d
        → Life true (v ∷ log) d
    stop : {log : List Visit} {d : AuthDatabase} → Life true log d → Life false log d
