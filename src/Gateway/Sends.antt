-- ===== src/Gateway/Sends.antt =====
-- Reasoning about what a handler of src/bin/client_gateway.rs sends to the core.
use capycoin.Base.{
  ◌≡◌, refl, ◌⊎◌, inl, Bool, true, false, Option, none, some, List, ◌∷◌, ◌∙◌, is_some, arith,
  if◌then◌else◌,
}
use capycoin.Sqlite.{Outcome, ok, err, panic, Conn, Sql, bind, from_outcome, raise_if}
use capycoin.Auth.{AuthDatabase}
use capycoin.Message.{ClientMessage}
use capycoin.Gateway.{Response, World, Draw, refusal, Handler, or_return, in_auth, open_auth}

-- A run that sends nothing and whose value meets `Q`.
abbrev pub Quiet :
    {A : Type 0} → List ClientMessage → (A → Type 0) → Outcome Response A × Conn World → Type 0
Quiet before Q (ok a, c) = (c.db.sent ≡ before) × Q a
Quiet before Q (err e, c) = c.db.sent ≡ before
Quiet before Q (panic, c) = c.db.sent ≡ before

-- A run that sends nothing, or one message, which meets `P`.
abbrev pub Sends :
    {A : Type 0}
    → (ClientMessage → Type 0)
    → List ClientMessage
    → Outcome Response A × Conn World
    → Type 0
Sends P before r = (r.1.db.sent ≡ before) ⊎ ((m : ClientMessage) × P m × (r.1.db.sent ≡ m ∷ before))

-- Code that sends nothing.
abbrev pub IsStill : {A : Type 0} → Handler A → Type 0
IsStill m = (c : Conn World) → (m c).1.db.sent ≡ c.db.sent

module _ {A B : Type 0} where
  pub bind-Sends :
      (P : ClientMessage → Type 0) (before : List ClientMessage) (Q : A → Type 0)
      (r : Outcome Response A × Conn World) (f : A → Handler B)
      → Quiet before Q r
      → ((a : A) (c : Conn World) → c.db.sent ≡ before → Q a → Sends P before (f a c))
      → Sends P before (bind r f)
  unfolding bind
  bind-Sends P before Q (ok a, c) f h k = k a c h.0 h.1
  bind-Sends P before Q (err e, c) f h k = inl h
  bind-Sends P before Q (panic, c) f h k = inl h

  pub bind-sent :
      (r : Outcome Response A × Conn World) (f : A → Handler B)
      → ((a : A) → IsStill (f a))
      → (bind r f).1.db.sent ≡ r.1.db.sent
  unfolding bind
  bind-sent (ok a, c) f still = still a c
  bind-sent (err e, c) f still = refl
  bind-sent (panic, c) f still = refl

  pub from_outcome-Sends :
      (P : ClientMessage → Type 0) (before : List ClientMessage) (r : Outcome Response A)
      (c : Conn World) (f : A → Handler B)
      → c.db.sent ≡ before
      → ((a : A) → r ≡ ok a → Sends P before (f a c))
      → Sends P before (bind (from_outcome r c) f)
  unfolding bind from_outcome
  from_outcome-Sends P before (ok a) c f same k = k a refl
  from_outcome-Sends P before (err e) c f same k = inl same
  from_outcome-Sends P before panic c f same k = inl same

  pub bind-IsStill :
      (m : Handler A) (f : A → Handler B)
      → IsStill m
      → ((a : A) → IsStill (f a))
      → IsStill (λ c. bind (m c) f)
  bind-IsStill m f still rest c = bind-sent (m c) f rest ∙ still c

  pub from_outcome-IsStill :
      (r : Outcome Response A) (f : A → Handler B)
      → ((a : A) → IsStill (f a))
      → IsStill (λ c. bind (from_outcome r c) f)
  unfolding from_outcome
  from_outcome-IsStill r f still c = bind-sent (from_outcome r c) f still

module _ {A B : Type 0} (Q : B → Type 0) where
  pub from_outcome-Quiet :
      (r : Outcome Response A) (c : Conn World) (f : A → Handler B)
      → ((a : A) → r ≡ ok a → Quiet c.db.sent Q (f a c))
      → Quiet c.db.sent Q (bind (from_outcome r c) f)
  unfolding bind from_outcome
  from_outcome-Quiet (ok a) c f k = k a refl
  from_outcome-Quiet (err e) c f k = refl
  from_outcome-Quiet panic c f k = refl

module _ {B : Type 0} (Q : B → Type 0) where
  pub open_auth-Quiet :
      (draw : Draw) (c : Conn World) (f : Unit {0} → Handler B)
      → (draw.opens ≡ true → Quiet c.db.sent Q (f tt c))
      → Quiet c.db.sent Q (bind (open_auth draw c) f)
  unfolding bind open_auth raise_if
  open_auth-Quiet draw c f = go draw.opens
    where
      go :
          (b : Bool)
          → (b ≡ true → Quiet c.db.sent Q (f tt c))
          → Quiet c.db.sent Q (
              bind (raise_if (if b then false else true) (refusal 500 "Internal server error") c) f)
      go true k = k refl
      go false k = refl

pub raise_if-Sends :
    {B : Type 0} (P : ClientMessage → Type 0) (before : List ClientMessage) (test : Bool)
    (e : Response) (c : Conn World) (f : Unit {0} → Handler B)
    → c.db.sent ≡ before
    → (test ≡ false → Sends P before (f tt c))
    → Sends P before (bind (raise_if test e c) f)
unfolding bind raise_if
raise_if-Sends P before true e c f same k = inl same
raise_if-Sends P before false e c f same k = k refl

pub none_of_is_some : {A : Type 0} (o : Option A) → is_some o ≡ false → o ≡ none
none_of_is_some none h = refl
none_of_is_some (some a) h = cc

pub in_auth-IsStill : {E A : Type 0} (m : Sql AuthDatabase E A) → IsStill (in_auth m)
unfolding in_auth
in_auth-IsStill m c = refl

pub open_auth-IsStill : (draw : Draw) → IsStill (open_auth draw)
unfolding open_auth raise_if
open_auth-IsStill draw c = ground arith

pub or_return-ok :
    {A : Type 0} (e : Response) (o : Option A) (a : A) → or_return e o ≡ ok a → o ≡ some a
or_return-ok e none a h = cc
or_return-ok e (some b) a h = cc
