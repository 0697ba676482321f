-- ===== src/Core/Reach.antt =====
-- The life of the database of src/bin/core.rs: processes that start, answer datagrams and stop, and
-- the invariant of every database that they come to.
use Prim.Native.String.{String}
use mathlib.Core.Path.{subst}
use capycoin.Base.{sym, inr, inl, ℕ, ◌≡◌, ◌≢◌, none, some, Bool, true, false, List, Option}
use capycoin.Sqlite.{is_ok, SqlError, Outcome, ok, err, panic, Engine, Conn}
use capycoin.Database.{Time, Database}
use capycoin.Account.{seed_account_id}
use capycoin.Ledger.Consistent.{IsConsistent}
use capycoin.Message.{Json}
use capycoin.Core.Handler.{Serves, handler-Serves}
use capycoin.Core.Start.{IsStored, Leaves, start-Leaves}
use capycoin.Core.{AppError, Fresh, handler, start}

-- Whether a process runs its loop: `true` after a start that succeeded and after every datagram
-- whose handling did not panic.
abbrev pub is_alive : {D E A : Type 0} → Outcome E A × Conn D → Bool
is_alive (ok a, c) = true
is_alive (err e, c) = true
is_alive (panic, c) = false

module _ (engine : Engine) (debug_sql : SqlError → String) (json : Json) where
  -- The databases that the processes come to, one after the other, with whether a process runs. A
  -- process starts on what is stored, goes on after each datagram unless the handling panics, and
  -- stops between two datagrams. `c` is the connection before the step.
  pub data Reach : Bool → Database → Type 0 where
    empty : {d : Database} → d.accounts ≡ none → d.transactions ≡ none → Reach false d
    begin :
        {running : Bool} {d : Database} (now : Time) (c : Conn Database)
        → Reach false c.db
        → is_ok (start engine now c) ≡ running
        → (start engine now c).1.db ≡ d
        → Reach running d
    handle :
        {running : Bool} {d : Database} (fresh : Fresh) (msg : List ℕ) (c : Conn Database)
        → Reach true c.db
        → fresh.id ≢ seed_account_id
        → is_alive (handler engine debug_sql json fresh msg c) ≡ running
        → (handler engine debug_sql json fresh msg c).1.db ≡ d
        → Reach running d
    stop : {d : Database} → Reach true d → Reach false d

-- While a process runs, accounts and ledger agree; otherwise nothing has been stored yet, or only an
-- empty table of accounts, or they agree.
abbrev pub Keeps : Bool → Database → Type 0
Keeps true d = IsConsistent d
Keeps false d = IsStored d

start-Keeps :
    {E A : Type 0} (r : Outcome E A × Conn Database)
    → Leaves IsStored IsConsistent r
    → Keeps (is_ok r) r.1.db
start-Keeps (ok a, c) h = h
start-Keeps (err e, c) h = h
start-Keeps (panic, c) h = absurd h

handler-Keeps :
    (json : Json) (engine : Engine) (fresh : Fresh) (msg : List ℕ) (before : Database)
    (r : Outcome AppError (Option (List ℕ)) × Conn Database)
    → IsConsistent before
    → Serves json engine fresh msg before r
    → Keeps (is_alive r) r.1.db
handler-Keeps json engine fresh msg before (ok none, c) ready h = subst IsConsistent (sym h.0) ready
handler-Keeps json engine fresh msg before (ok (some bytes), c) ready h = h.0.ready
handler-Keeps json engine fresh msg before (err e, c) ready h = subst IsConsistent (sym h.0) ready
handler-Keeps json engine fresh msg before (panic, c) ready h = inr (inr h.0.ready)

-- Every database that the processes come to from an empty file, whatever calls fail and whatever
-- bytes are received, when no id that is drawn is the seed account's, is sound: while a process runs its accounts and its ledger agree
-- (`IsConsistent`), so that the funds of all accounts together are the coin that was minted; and when
-- none runs it is one on which a process can start (`IsStored`).
pub Reach-Keeps :
    (engine : Engine) (debug_sql : SqlError → String) (json : Json) (running : Bool) (d : Database)
    → Reach engine debug_sql json running d
    → Keeps running d
Reach-Keeps engine debug_sql json _ d (empty accounts ledger) = inl (accounts, ledger)
Reach-Keeps engine debug_sql json _ d (begin now c r is_running is_d) =
    subst (λ b. Keeps b d) is_running
      (subst (Keeps (is_ok (start engine now c))) is_d (
        start-Keeps (start engine now c)
          (start-Leaves engine now c (Reach-Keeps engine debug_sql json false c.db r))))
Reach-Keeps engine debug_sql json _ d (handle fresh msg c r ne is_running is_d) =
    let ready = Reach-Keeps engine debug_sql json true c.db r in
    let after = handler engine debug_sql json fresh msg c in
    subst (λ b. Keeps b d) is_running
      (subst (Keeps (is_alive after)) is_d (
        handler-Keeps json engine fresh msg c.db after ready
          (handler-Serves engine debug_sql json fresh msg c ready ne)))
Reach-Keeps engine debug_sql json _ d (stop r) =
    inr (inr (Reach-Keeps engine debug_sql json true d r))
