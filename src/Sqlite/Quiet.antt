-- ===== src/Sqlite/Quiet.antt =====
-- Code on a connection, call by call: what it computes when no call fails.
use capycoin.Base.{ℕ, suc, ◌≡◌, refl, ap, ◌∙◌, Bool, true, false, none}
use capycoin.Sqlite.{
  SqlError, Outcome, ok, err, panic, Conn, Sql, bind, ◌>>◌, pure, from_outcome, raise_if, assert,
  map_err, Engine, statement, touch, settle, transaction,
}

-- The equations of the plumbing.
module _ {D E B : Type 0} where
  pub raise_if_no :
      {test : Bool} (e : E) (c : Conn D) (f : Unit {0} → Sql D E B)
      → test ≡ false
      → bind (raise_if test e c) f ≡ f tt c
  unfolding bind raise_if
  raise_if_no e c f h = rw h

  pub raise_if_yes :
      {test : Bool} (e : E) (c : Conn D) (f : Unit {0} → Sql D E B)
      → test ≡ true
      → bind (raise_if test e c) f ≡ (err e, c)
  unfolding bind raise_if
  raise_if_yes e c f h = rw h

  pub from_outcome_ok :
      {A : Type 0} {r : Outcome E A} {a : A} (c : Conn D) (f : A → Sql D E B)
      → r ≡ ok a
      → bind (from_outcome r c) f ≡ f a c
  unfolding bind from_outcome
  from_outcome_ok c f h = rw h

  pub assert_ok :
      {test : Bool} (c : Conn D) (f : Unit {0} → Sql D E B)
      → test ≡ true
      → bind (assert test c) f ≡ f tt c
  unfolding bind assert
  assert_ok c f h = rw h

abbrev pub map_ok : {E A B : Type 0} → (A → B) → Outcome E A → Outcome E B
map_ok f (ok a) = ok (f a)
map_ok f (err e) = err e
map_ok f panic = panic

pub bind-pure :
    {D E A B : Type 0} (f : A → B) (r : Outcome E A × Conn D)
    → (bind r (λ a. pure (f a))).0 ≡ map_ok f r.0
unfolding bind
bind-pure f (ok a, c) = refl
bind-pure f (err e, c) = refl
bind-pure f (panic, c) = refl

-- With no fault a statement is its effect.
abbrev pub IsQuiet : Engine → Type 0
IsQuiet engine = (n : ℕ) → engine.fault n ≡ none

module _ (engine : Engine) (quiet : IsQuiet engine) {D E A B : Type 0} (lift : SqlError → E)
    (f : D → Outcome SqlError (A × D)) (c : Conn D) (k : A → Sql D E B) where
  pub statement_ok :
      {a : A} {d : D}
      → f c.db ≡ ok (a, d)
      → bind (map_err lift (statement engine f) c) k ≡ k a (record { db = d; calls = suc c.calls })
  unfolding bind map_err statement
  statement_ok e = rw (quiet c.calls, e)

  pub statement_err :
      {e : SqlError}
      → f c.db ≡ err e
      → bind (map_err lift (statement engine f) c) k
        ≡ (err (lift e), record c { calls = suc c.calls })
  unfolding bind map_err statement
  statement_err e = rw (quiet c.calls, e)

module _ (engine : Engine) (quiet : IsQuiet engine) {D E A : Type 0} (lift : SqlError → E) where
  pub touch_ok :
      (c : Conn D) (k : Unit {0} → Sql D E A)
      → bind (map_err lift (touch engine) c) k ≡ k tt (record c { calls = suc c.calls })
  unfolding bind map_err statement touch
  touch_ok c k = rw (quiet c.calls)

  commit_result :
      (before : D) (r : Outcome E A × Conn D)
      → (settle before (bind r (λ a. map_err lift (touch engine) >> pure a))).0 ≡ r.0
  unfolding bind map_err statement touch
  commit_result before (ok a, c) = rw (quiet c.calls)
  commit_result before (err e, c) = refl
  commit_result before (panic, c) = refl

  -- With no fault a transaction gives what its body gives.
  pub transaction_result :
      (body : Sql D E A) (c : Conn D)
      → (transaction engine lift body c).0 ≡ (body (record c { calls = suc c.calls })).0
  unfolding transaction
  transaction_result body c =
      ap (λ r. (settle c.db r).0) (touch_ok c _)
      ∙ commit_result c.db (body (record c { calls = suc c.calls }))
