-- ===== src/Sqlite/Monad.antt =====
-- Fallible code on a connection: Rust's `Result`, a panic, and the connection's state.
use capycoin.Base.{ℕ, Bool, true, false}

-- `Result<A, E>`, or a panic.
pub data Outcome (E A : Type 0) : Type 0 where
  ok : A → Outcome E A
  err : E → Outcome E A
  panic : Outcome E A

-- A `Connection`: the database that it sees, and how many calls it has made.
pub record Conn (D : Type 0) : Type 0 where
  pub db : D
  pub calls : ℕ

abbrev pub Sql : Type 0 → Type 0 → Type 0 → Type 0
Sql D E A = Conn D → Outcome E A × Conn D

-- `Result::unwrap`
abbrev pub unwrapped : {E F A : Type 0} → Outcome E A → Outcome F A
unwrapped (ok a) = ok a
unwrapped (err e) = panic
unwrapped panic = panic

abbrev pub is_ok : {D E A : Type 0} → Outcome E A × Conn D → Bool
is_ok (ok a, c) = true
is_ok (err e, c) = false
is_ok (panic, c) = false

unfoldable pub bind :
    {D E A B : Type 0} → Outcome E A × Conn D → (A → Sql D E B) → Outcome E B × Conn D
bind (ok a, c) f = f a c
bind (err e, c) f = (err e, c)
bind (panic, c) f = (panic, c)

infixl 5 ◌>>=◌ ◌>>◌
abbrev pub ◌>>=◌ : {D E A B : Type 0} → Sql D E A → (A → Sql D E B) → Sql D E B
◌>>=◌ m f c = bind (m c) f

abbrev pub ◌>>◌ : {D E A B : Type 0} → Sql D E A → Sql D E B → Sql D E B
m >> k = m >>= λ _. k

module _ {D E A : Type 0} where
  abbrev pub pure : A → Sql D E A
  pure a c = (ok a, c)

  abbrev pub throw : E → Sql D E A
  throw e c = (err e, c)

  -- A value computed without the connection.
  unfoldable pub from_outcome : Outcome E A → Sql D E A
  from_outcome r c = (r, c)

-- `if test { return Err(e) }`
unfoldable pub raise_if : {D E : Type 0} → Bool → E → Sql D E (Unit {0})
raise_if true e c = (err e, c)
raise_if false e c = (ok tt, c)

-- `assert!(test)`
unfoldable pub assert : {D E : Type 0} → Bool → Sql D E (Unit {0})
assert true c = (ok tt, c)
assert false c = (panic, c)

-- The conversion of an error by `?`.
abbrev pub lift_err : {E F A : Type 0} → (E → F) → Outcome E A → Outcome F A
lift_err f (ok a) = ok a
lift_err f (err e) = err (f e)
lift_err f panic = panic

unfoldable pub map_err : {D E F A : Type 0} → (E → F) → Sql D E A → Sql D F A
map_err f m c = let (r, c') = m c in (lift_err f r, c')

-- The plumbing of a run, named together: what unfolds `run` computes through it.
unfoldable pub run : Unit {0}
unfolding bind raise_if assert map_err from_outcome
run = tt
