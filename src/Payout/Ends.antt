-- ===== src/Payout/Ends.antt =====
-- One message and one payment of src/bin/stipend.rs: how they end, and what has been sent.
use capycoin.Base.{ℕ, suc, ◌≡◌, refl, some, List, ◌∷◌, Option, none}
use capycoin.Base.Int.{ℤ}
use capycoin.Sqlite.{Outcome, ok, err, panic, Conn, bind, from_outcome, and_then}
use capycoin.Database.{Uuid}
use capycoin.Message.{ClientMessage, create_transaction_response, ServerMessage, Json}
use capycoin.Client.{Address, send_and_recv_msg, expect_some}
use capycoin.Client.Exchange.{Receives, send_and_recv_msg-Receives}
use capycoin.Payout.{Draw, Sending, Program, receipt_or_error, payment, ask, pay}

-- A run that ends in a value that meets `Q`, or in a panic, with the messages sent meeting `P`.
abbrev pub Ends :
    {A : Type 0}
    → (A → List ClientMessage → Type 0)
    → (List ClientMessage → Type 0)
    → Outcome (Unit {0}) A × Conn Sending
    → Type 0
Ends Q P (ok a, c) = Q a c.db.sent
Ends Q P (err e, c) = ⊥
Ends Q P (panic, c) = P c.db.sent

module _ {A B : Type 0} where
  pub bind-Ends :
      (Q : A → List ClientMessage → Type 0) (R : B → List ClientMessage → Type 0)
      (P : List ClientMessage → Type 0) (r : Outcome (Unit {0}) A × Conn Sending)
      (f : A → Program B)
      → Ends Q P r
      → ((a : A) (c : Conn Sending) → Q a c.db.sent → Ends R P (f a c))
      → Ends R P (bind r f)
  unfolding bind
  bind-Ends Q R P (ok a, c) f h k = k a c h
  bind-Ends Q R P (err e, c) f h k = absurd h
  bind-Ends Q R P (panic, c) f h k = h

module _ {A : Type 0} (Q R : A → List ClientMessage → Type 0)
    (P S : List ClientMessage → Type 0) where
  pub Ends-mono :
      (r : Outcome (Unit {0}) A × Conn Sending)
      → ((a : A) (l : List ClientMessage) → Q a l → R a l)
      → ((l : List ClientMessage) → P l → S l)
      → Ends Q P r
      → Ends R S r
  Ends-mono (ok a, c) k m h = k a c.db.sent h
  Ends-mono (err e, c) k m h = h
  Ends-mono (panic, c) k m h = m c.db.sent h

module _ (json : Json) (draw : ℕ → Draw) where
  pub ask-Ends :
      (m : ClientMessage) (c : Conn Sending)
      → Ends
          (λ resp l. (l ≡ m ∷ c.db.sent) × ((ask json draw m c).0 ≡ ok resp))
          (λ l. l ≡ m ∷ c.db.sent)
          (ask json draw m c)
  unfolding ask
  ask-Ends m c =
      go
        (send_and_recv_msg json (draw c.calls).wire (draw c.calls).address (draw c.calls).id m
          files)
        (send_and_recv_msg-Receives json (draw c.calls).wire (draw c.calls).address
          (draw c.calls).id m files)
    where
      files : Conn (List Address)
      files = record { db = c.db.sockets; calls = c.calls }

      go :
          (r : Outcome (Unit {0}) (Option ServerMessage) × Conn (List Address))
          → Receives json (draw c.calls).wire (draw c.calls).id m (draw c.calls).address files.db r
          → Ends
              (λ resp l. (l ≡ m ∷ c.db.sent) × (and_then r.0 expect_some ≡ ok resp))
              (λ l. l ≡ m ∷ c.db.sent)
              (
                and_then r.0 expect_some,
                record {
                  db = record { sockets = r.1.db; sent = m ∷ c.db.sent };
                  calls = suc c.calls;
                },
              )
      go (ok none, c') h = refl
      go (ok (some resp), c') h = (refl, refl)
      go (err e, c') h = h
      go (panic, c') h = refl

  pub pay-Ends :
      (amount : ℤ) (id : Uuid) (c : Conn Sending)
      → Ends
          (λ _ l. l ≡ payment amount id ∷ c.db.sent)
          (λ l. l ≡ payment amount id ∷ c.db.sent)
          (pay json draw amount id c)
  unfolding pay from_outcome
  pay-Ends amount id c =
      bind-Ends _ _ _ (ask json draw (payment amount id) c) _ (ask-Ends (payment amount id) c)
        (λ resp c' h. receipt_step resp c' h.0)
    where
      receipt_step :
          (resp : ServerMessage) (c' : Conn Sending)
          → c'.db.sent ≡ payment amount id ∷ c.db.sent
          → Ends
              (λ _ l. l ≡ payment amount id ∷ c.db.sent)
              (λ l. l ≡ payment amount id ∷ c.db.sent)
              (from_outcome (receipt_or_error resp) c')
      receipt_step (create_transaction_response r) c' h = h
      receipt_step _ c' h = h
