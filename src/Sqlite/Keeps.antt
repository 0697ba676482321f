-- ===== src/Sqlite/Keeps.antt =====
-- Reasoning about code on a connection: what it keeps of the database, whichever way it ends.
use capycoin.Base.{ℕ, ◌≡◌, refl, Bool, true, false, Option, none, some, if◌then◌else◌}
use capycoin.Sqlite.{
  SqlError, Outcome, ok, err, panic, Conn, Sql, bind, from_outcome, raise_if, map_err, Engine,
  statement, touch, answer, settle, transaction,
}

module _ {D : Type 0} (P : D → Type 0) where
  -- The database after a run meets `P`.
  abbrev pub Kept : {E A : Type 0} → Outcome E A × Conn D → Type 0
  Kept r = P r.1.db

  pub bind-Kept :
      {E A B : Type 0} (r : Outcome E A × Conn D) (f : A → Sql D E B)
      → Kept r
      → ((a : A) → r.0 ≡ ok a → Kept (f a r.1))
      → Kept (bind r f)
  unfolding bind
  bind-Kept (ok a, c) f h k = k a refl
  bind-Kept (err e, c) f h k = h
  bind-Kept (panic, c) f h k = h

  pub from_outcome-Kept :
      {E A B : Type 0} (r : Outcome E A) (c : Conn D) (f : A → Sql D E B)
      → P c.db
      → ((a : A) → r ≡ ok a → Kept (f a c))
      → Kept (bind (from_outcome r c) f)
  unfolding from_outcome
  from_outcome-Kept r c f h k = bind-Kept (r, c) f h k

  pub raise_if-Kept :
      {E : Type 0} (test : Bool) (e : E) (c : Conn D) → P c.db → Kept (raise_if test e c)
  unfolding raise_if
  raise_if-Kept true e c h = h
  raise_if-Kept false e c h = h

  -- One of two ways.
  pub if-Kept :
      {E A : Type 0} (b : Bool) (first second : Sql D E A) (c : Conn D)
      → Kept (first c)
      → Kept (second c)
      → Kept (if◌then◌else◌ {A = Sql D E A} b first second c)
  if-Kept true first second c h k = h
  if-Kept false first second c h k = k

  answer-Kept :
      {E A : Type 0} (lift : SqlError → E) (fault : Option ℕ) (c : Conn D)
      (r : Outcome SqlError (A × D))
      → P c.db
      → ((a : A) (d : D) → r ≡ ok (a, d) → P d)
      → Kept (map_err lift (λ c. answer fault c r) c)
  unfolding map_err
  answer-Kept lift (some code) c r h k = h
  answer-Kept lift none c (ok (a, d)) h k = k a d refl
  answer-Kept lift none c (err e) h k = h
  answer-Kept lift none c panic h k = h

  settle-Kept :
      {E A : Type 0} (before : D) (r : Outcome E A × Conn D)
      → P before
      → Kept r
      → Kept (settle before r)
  settle-Kept before (ok a, c) h k = k
  settle-Kept before (err e, c) h k = h
  settle-Kept before (panic, c) h k = h

  module _ (engine : Engine) {E : Type 0} (lift : SqlError → E) where
    pub statement-Kept :
        {A : Type 0} (f : D → Outcome SqlError (A × D)) (c : Conn D)
        → P c.db
        → ((a : A) (d : D) → f c.db ≡ ok (a, d) → P d)
        → Kept (map_err lift (statement engine f) c)
    unfolding statement map_err
    statement-Kept f c h k = answer-Kept lift (engine.fault c.calls) c (f c.db) h k

    pub touch-Kept : (c : Conn D) → P c.db → Kept (map_err lift (touch engine) c)
    unfolding touch statement map_err
    touch-Kept c h = go (engine.fault c.calls)
      where
        go : (fault : Option ℕ) → Kept (map_err lift (λ c. answer fault c (ok (tt, c.db))) c)
        go none = h
        go (some code) = h

    pub transaction-Kept :
        {A : Type 0} (body : Sql D E A) (c : Conn D)
        → P c.db
        → ((begun : Conn D) → P begun.db → Kept (body begun))
        → Kept (transaction engine lift body c)
    unfolding transaction
    transaction-Kept body c h k = settle-Kept c.db _ h (
        bind-Kept (map_err lift (touch engine) c) _ (touch-Kept c h) λ _ _.
          let begun = (map_err lift (touch engine) c).1 in
          let done = k begun (touch-Kept c h) in
          bind-Kept (body begun) _ done λ _ _.
            bind-Kept (map_err lift (touch engine) (body begun).1) _ (touch-Kept _ done)
              λ _ _. touch-Kept _ done)
