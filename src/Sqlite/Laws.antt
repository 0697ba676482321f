-- ===== src/Sqlite/Laws.antt =====
-- Reasoning about code on a connection: what a run ensures when it succeeds, and how a transaction
-- ends, whatever calls fail.
use mathlib.Core.Path.{subst}
use capycoin.Base.{ℕ, ◌≡◌, refl, ◌≢◌, Bool, true, false, Option, none, some}
use capycoin.Sqlite.{
  and_then, SqlError, Outcome, ok, err, panic, Conn, Sql, bind, from_outcome, raise_if, assert,
  map_err, Engine, statement, touch, answer, settle, transaction,
}

module _ {D E A : Type 0} where
  -- A success meets `Q`, an error has no condition, and there is no panic.
  abbrev pub Ensures : (A → D → Type 0) → Outcome E A × Conn D → Type 0
  Ensures Q (ok a, c) = Q a c.db
  Ensures Q (err e, c) = Unit
  Ensures Q (panic, c) = ⊥

  -- A success meets `Q`, an error leaves the database as it was, and there is no panic.
  abbrev pub Settles : D → (A → D → Type 0) → Outcome E A × Conn D → Type 0
  Settles before Q (ok a, c) = Q a c.db
  Settles before Q (err e, c) = c.db ≡ before
  Settles before Q (panic, c) = ⊥

  pub settle-Settles :
      (before : D) (Q : A → D → Type 0) (r : Outcome E A × Conn D)
      → Ensures Q r
      → Settles before Q (settle before r)
  settle-Settles before Q (ok a, c) h = h
  settle-Settles before Q (err e, c) h = refl
  settle-Settles before Q (panic, c) h = h

  pub Ensures-mono :
      (Q R : A → D → Type 0) (r : Outcome E A × Conn D)
      → ((a : A) (d : D) → Q a d → R a d)
      → Ensures Q r
      → Ensures R r
  Ensures-mono Q R (ok a, c) k h = k a c.db h
  Ensures-mono Q R (err e, c) k h = tt
  Ensures-mono Q R (panic, c) k h = h

  pub Settles-mono :
      (before : D) (Q R : A → D → Type 0) (r : Outcome E A × Conn D)
      → ((a : A) (d : D) → Q a d → R a d)
      → Settles before Q r
      → Settles before R r
  Settles-mono before Q R (ok a, c) k h = k a c.db h
  Settles-mono before Q R (err e, c) k h = h
  Settles-mono before Q R (panic, c) k h = h

  -- A settled run, read at its result.
  pub Settles-ok :
      (before : D) (Q : A → D → Type 0) (r : Outcome E A × Conn D) {a : A} {c : Conn D}
      → Settles before Q r
      → r ≡ (ok a, c)
      → Q a c.db
  Settles-ok before Q r h e = subst (Settles before Q) e h

  pub Settles-err :
      (before : D) (Q : A → D → Type 0) (r : Outcome E A × Conn D) {e : E} {c : Conn D}
      → Settles before Q r
      → r ≡ (err e, c)
      → c.db ≡ before
  Settles-err before Q r h e = subst (Settles before Q) e h

module _ {D E A B : Type 0} where
  pub bind-Ensures :
      (Q : A → D → Type 0) (R : B → D → Type 0) (r : Outcome E A × Conn D) (f : A → Sql D E B)
      → Ensures Q r
      → ((a : A) (c : Conn D) → Q a c.db → Ensures R (f a c))
      → Ensures R (bind r f)
  unfolding bind
  bind-Ensures Q R (ok a, c) f h k = k a c h
  bind-Ensures Q R (err e, c) f h k = tt
  bind-Ensures Q R (panic, c) f h k = h

  pub bind-Settles :
      (before : D) (Q : A → D → Type 0) (R : B → D → Type 0) (r : Outcome E A × Conn D)
      (f : A → Sql D E B)
      → Settles before Q r
      → ((a : A) (c : Conn D) → Q a c.db → Settles before R (f a c))
      → Settles before R (bind r f)
  unfolding bind
  bind-Settles before Q R (ok a, c) f h k = k a c h
  bind-Settles before Q R (err e, c) f h k = h
  bind-Settles before Q R (panic, c) f h k = h

module _ {D E B : Type 0} (R : B → D → Type 0) where
  -- After a test, the run goes on with the test known to be false.
  pub raise_if_then :
      (test : Bool) (e : E) (c : Conn D) (f : Unit {0} → Sql D E B)
      → (test ≡ false → Ensures R (f tt c))
      → Ensures R (bind (raise_if test e c) f)
  unfolding bind raise_if
  raise_if_then true e c f h = tt
  raise_if_then false e c f h = h refl

  pub from_outcome_then :
      {A : Type 0} (r : Outcome E A) (a : A) (c : Conn D) (f : A → Sql D E B)
      → r ≡ ok a
      → Ensures R (f a c)
      → Ensures R (bind (from_outcome r c) f)
  unfolding bind from_outcome
  from_outcome_then r a c f e h = rw e h

  pub from_outcome-Ensures :
      {A : Type 0} (r : Outcome E A) (c : Conn D) (f : A → Sql D E B)
      → r ≢ panic
      → ((a : A) → r ≡ ok a → Ensures R (f a c))
      → Ensures R (bind (from_outcome r c) f)
  unfolding bind from_outcome
  from_outcome-Ensures (ok a) c f np h = h a refl
  from_outcome-Ensures (err e) c f np h = tt
  from_outcome-Ensures panic c f np h = np refl

module _ {D E B : Type 0} (before : D) (R : B → D → Type 0) where
  pub raise_if-Settles :
      (test : Bool) (e : E) (c : Conn D) (f : Unit {0} → Sql D E B)
      → c.db ≡ before
      → (test ≡ false → Settles before R (f tt c))
      → Settles before R (bind (raise_if test e c) f)
  unfolding bind raise_if
  raise_if-Settles true e c f same h = same
  raise_if-Settles false e c f same h = h refl

  pub assert-Settles :
      (test : Bool) (c : Conn D) (f : Unit {0} → Sql D E B)
      → test ≡ true
      → Settles before R (f tt c)
      → Settles before R (bind (assert test c) f)
  unfolding bind assert
  assert-Settles true c f e h = h
  assert-Settles false c f e h = cc

pub and_then-eq-ok :
    {E A B : Type 0} (r : Outcome E A) (f : A → Outcome E B) {b : B}
    → and_then r f ≡ ok b
    → (a : A) × (r ≡ ok a) × (f a ≡ ok b)
and_then-eq-ok (ok a) f h = (a, refl, h)
and_then-eq-ok (err e) f h = cc
and_then-eq-ok panic f h = cc

module _ {D E A : Type 0} where
  answer-Ensures :
      (Q : A → D → Type 0) (lift : SqlError → E) (fault : Option ℕ) (c : Conn D)
      (r : Outcome SqlError (A × D))
      → r ≢ panic
      → ((a : A) (d : D) → r ≡ ok (a, d) → Q a d)
      → Ensures Q (map_err lift (λ c. answer fault c r) c)
  unfolding map_err
  answer-Ensures Q lift (some code) c r np h = tt
  answer-Ensures Q lift none c (ok (a, d)) np h = h a d refl
  answer-Ensures Q lift none c (err e) np h = tt
  answer-Ensures Q lift none c panic np h = np refl

module _ (engine : Engine) {D E : Type 0} where
  -- A statement succeeds as its effect does.
  pub statement-Ensures :
      {A : Type 0} (Q : A → D → Type 0) (lift : SqlError → E) (f : D → Outcome SqlError (A × D))
      (c : Conn D)
      → f c.db ≢ panic
      → ((a : A) (d : D) → f c.db ≡ ok (a, d) → Q a d)
      → Ensures Q (map_err lift (statement engine f) c)
  unfolding statement map_err
  statement-Ensures Q lift f c np h = answer-Ensures Q lift (engine.fault c.calls) c (f c.db) np h

  -- After a statement, the run goes on with what its effect gave.
  pub statement_then :
      {A B : Type 0} (R : B → D → Type 0) (lift : SqlError → E) (f : D → Outcome SqlError (A × D))
      (c : Conn D) (k : A → Sql D E B)
      → f c.db ≢ panic
      → ((a : A) (c' : Conn D) → f c.db ≡ ok (a, c'.db) → Ensures R (k a c'))
      → Ensures R (bind (map_err lift (statement engine f) c) k)
  statement_then R lift f c k np h =
      bind-Ensures (λ a d. f c.db ≡ ok (a, d)) R _ k
        (statement-Ensures (λ a d. f c.db ≡ ok (a, d)) lift f c np (λ a d e. e)) h

  pub touch-Ensures :
      (Q : Unit {0} → D → Type 0) (lift : SqlError → E) (c : Conn D)
      → Q tt c.db
      → Ensures Q (map_err lift (touch engine) c)
  unfolding touch statement map_err
  touch-Ensures Q lift c h =
      answer-Ensures Q lift (engine.fault c.calls) c (ok (tt, c.db)) (λ e. cc)
        (λ a d e. let same : c.db ≡ d = cc in rw (← same) h)

  -- A transaction ends in its body's result, or as if it had not begun.
  pub transaction-Settles :
      {A : Type 0} (Q : A → D → Type 0) (lift : SqlError → E) (body : Sql D E A) (c : Conn D)
      → ((begun : Conn D) → begun.db ≡ c.db → Ensures Q (body begun))
      → Settles c.db Q (transaction engine lift body c)
  unfolding transaction
  transaction-Settles Q lift body c h = settle-Settles c.db Q _ (
      bind-Ensures (λ _ d. d ≡ c.db) Q (map_err lift (touch engine) c) _
        (touch-Ensures _ lift c refl)
        (λ _ begun same. bind-Ensures Q Q (body begun) _ (h begun same) (λ a ended q.
          bind-Ensures (λ _ d. Q a d) Q (map_err lift (touch engine) ended) _
            (touch-Ensures (λ _ d. Q a d) lift ended q) (λ _ _ q'. q'))))
