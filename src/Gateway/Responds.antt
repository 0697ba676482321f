-- ===== src/Gateway/Responds.antt =====
-- Reasoning about the response that a handler of src/bin/client_gateway.rs gives: what holds of it when
-- the handler comes to its end, and the status of one that is returned early.
use capycoin.Base.{◌≡◌, refl, ◌⊎◌, inl, inr, Option, none, some, List, Bool, true, false, arith}
use Prim.Native.String.{String}
use capycoin.Sqlite.{Outcome, ok, err, panic, Conn, bind, from_outcome, raise_if}
use capycoin.Account.{Account, AccountCreatedResult}
use capycoin.Database.{Transaction}
use capycoin.Ledger.{TransactionReceipt}
use capycoin.Message.{
  Result, ClientMessage, ServerMessage, create_new_account_response, get_account_response,
  get_transactions_response, get_transaction_response, create_transaction_response,
}
use capycoin.Gateway.{
  Response, World, Handler, refusal, or_return, created_of, account_of, transactions_of, receipt_of,
  transaction_of,
}

-- A response to a bad request, without a valid token, or of an error inside.
abbrev pub IsRefusal : Response → Type 0
IsRefusal e = (e.status ≡ 400) ⊎ ((e.status ≡ 401) ⊎ (e.status ≡ 500))

-- The value of a run, with the messages that have been sent then, meets `Q`.
abbrev pub Responds :
    {A : Type 0} → (A → List ClientMessage → Type 0) → Outcome Response A × Conn World → Type 0
Responds Q (ok a, c) = Q a c.db.sent
Responds Q (err e, c) = IsRefusal e
Responds Q (panic, c) = Unit

module _ {A B : Type 0} (Q : B → List ClientMessage → Type 0) where
  pub bind-Responds :
      (P : A → List ClientMessage → Type 0) (r : Outcome Response A × Conn World)
      (f : A → Handler B)
      → Responds P r
      → ((a : A) (c : Conn World) → P a c.db.sent → Responds Q (f a c))
      → Responds Q (bind r f)
  unfolding bind
  bind-Responds P (ok a, c) f h k = k a c h
  bind-Responds P (err e, c) f h k = h
  bind-Responds P (panic, c) f h k = tt

  pub from_outcome-Responds :
      (r : Outcome Response A) (c : Conn World) (f : A → Handler B)
      → ((e : Response) → r ≡ err e → IsRefusal e)
      → ((a : A) → r ≡ ok a → Responds Q (f a c))
      → Responds Q (bind (from_outcome r c) f)
  unfolding bind from_outcome
  from_outcome-Responds (ok a) c f refuses k = k a refl
  from_outcome-Responds (err e) c f refuses k = refuses e refl
  from_outcome-Responds panic c f refuses k = tt

  pub or_return-Responds :
      (e : Response) (o : Option A) (c : Conn World) (f : A → Handler B)
      → IsRefusal e
      → ((a : A) → o ≡ some a → Responds Q (f a c))
      → Responds Q (bind (from_outcome (or_return e o) c) f)
  unfolding bind from_outcome
  or_return-Responds e none c f refuses k = refuses
  or_return-Responds e (some a) c f refuses k = k a refl

module _ {B : Type 0} (Q : B → List ClientMessage → Type 0) where
  pub raise_if-Responds :
      (test : Bool) (e : Response) (c : Conn World) (f : Unit {0} → Handler B)
      → IsRefusal e
      → (test ≡ false → Responds Q (f tt c))
      → Responds Q (bind (raise_if test e c) f)
  unfolding bind raise_if
  raise_if-Responds true e c f refuses k = refuses
  raise_if-Responds false e c f refuses k = k refl

pub refusal_400 : (message : String) → IsRefusal (refusal 400 message)
unfolding refusal
refusal_400 message = inl refl

pub refusal_401 : (message : String) → IsRefusal (refusal 401 message)
unfolding refusal
refusal_401 message = inr (inl refl)

pub refusal_500 : (message : String) → IsRefusal (refusal 500 message)
unfolding refusal
refusal_500 message = inr (inr refl)

-- How the core's response is taken: a value is the one that the response has, an error is a refusal.
module _ (o : Option ServerMessage) where
  pub created_of-ok :
      (r : AccountCreatedResult)
      → created_of o ≡ ok r
      → o ≡ some (create_new_account_response (Result.ok r))
  created_of-ok r h = ground arith

  pub created_of-err : (e : Response) → created_of o ≡ err e → IsRefusal e
  unfolding refusal
  created_of-err e h = ground arith

  pub account_of-ok :
      (r : Account) → account_of o ≡ ok r → o ≡ some (get_account_response (Result.ok r))
  account_of-ok r h = ground arith

  pub account_of-err : (e : Response) → account_of o ≡ err e → IsRefusal e
  unfolding refusal
  account_of-err e h = ground arith

  pub transactions_of-ok :
      (r : List Transaction)
      → transactions_of o ≡ ok r
      → o ≡ some (get_transactions_response (Result.ok r))
  transactions_of-ok r h = ground arith

  pub transactions_of-err : (e : Response) → transactions_of o ≡ err e → IsRefusal e
  unfolding refusal
  transactions_of-err e h = ground arith

  pub receipt_of-ok :
      (r : TransactionReceipt)
      → receipt_of o ≡ ok r
      → o ≡ some (create_transaction_response (Result.ok r))
  receipt_of-ok r h = ground arith

  pub receipt_of-err : (e : Response) → receipt_of o ≡ err e → IsRefusal e
  unfolding refusal
  receipt_of-err e h = ground arith

  pub transaction_of-ok :
      (r : Transaction)
      → transaction_of o ≡ ok r
      → o ≡ some (get_transaction_response (Result.ok r))
  transaction_of-ok r h = ground arith

  pub transaction_of-err : (e : Response) → transaction_of o ≡ err e → IsRefusal e
  unfolding refusal
  transaction_of-err e h = ground arith
