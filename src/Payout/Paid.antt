-- ===== src/Payout/Paid.antt =====
-- What src/bin/stipend.rs sends to the core.
use capycoin.Base.{
  arith, Bool-cases, ◌+◌, ◌<◌, ℕ, ◌≡◌, refl, ◌⊎◌, inl, inr, true, false, List, [], ◌∷◌, ◌++◌, ap,
  ◌∙◌, Bool, filter, if◌then◌else◌,
}
use capycoin.Base.Int.{pos_part, neg_part, ℤ, pos, ltb_ℤ, leb_ℤ, ◌≤ℤ◌, ◌+ℤ◌, int_laws}
use capycoin.Sqlite.{ok, Conn, bind, from_outcome, pure, ◌>>=◌}
use capycoin.Account.{Account, seed_account_id}
use capycoin.Message.{
  Result, ClientMessage, create_transaction, get_accounts, ServerMessage, get_accounts_response,
  Json,
}
use capycoin.Payout.{Draw, Sending, accounts_of, is_eligible, ask, pay, pay_all, stipend}
use capycoin.Payout.Ends.{Ends, bind-Ends, Ends-mono, ask-Ends, pay-Ends}

-- The accounts of a list whose funds are at or below the minimum, in its order.
pub data Chosen (minimum : ℤ) : List Account → List Account → Type 0 where
  none_left : Chosen minimum [] []
  chosen :
      {acct : Account} {accts picked : List Account}
      → acct.funds ≤ℤ minimum
      → Chosen minimum accts picked
      → Chosen minimum (acct ∷ accts) (acct ∷ picked)
  passed_over :
      {acct : Account} {accts picked : List Account}
      → minimum +ℤ pos 1 ≤ℤ acct.funds
      → Chosen minimum accts picked
      → Chosen minimum (acct ∷ accts) picked

filter-Chosen :
    (minimum : ℤ) (accts : List Account) → Chosen minimum accts (filter (is_eligible minimum) accts)
filter-Chosen minimum [] = none_left
filter-Chosen minimum (acct ∷ accts) = elim (Bool-cases (leb_ℤ acct.funds minimum)) [
  | inl eligible ↦ rw eligible (chosen (ground arith) (filter-Chosen minimum accts))
  | inr rich ↦
      let above : pos_part minimum + neg_part acct.funds < pos_part acct.funds + neg_part minimum =
        ground arith in
      rw rich (passed_over (omega (int_laws, above)) (filter-Chosen minimum accts))
]

-- One message for each of the accounts, from the seed account to it, after the messages that were sent
-- before; the last one first.
abbrev pub paid_onto : ℤ → List Account → List ClientMessage → List ClientMessage
paid_onto amount [] sent = sent
paid_onto amount (acct ∷ accts) sent =
    paid_onto amount accts (create_transaction seed_account_id acct.account_id amount ∷ sent)

-- Payments of the first of the accounts, and of no others.
abbrev pub PaidSome : ℤ → List Account → List ClientMessage → List ClientMessage → Type 0
PaidSome amount accts before l =
    (done rest : List Account) × (accts ≡ done ++ rest) × (l ≡ paid_onto amount done before)

module _ (json : Json) (draw : ℕ → Draw) where
  pay_all-Ends :
      (amount : ℤ) (accts : List Account) (c : Conn Sending)
      → Ends
          (λ _ l. l ≡ paid_onto amount accts c.db.sent)
          (PaidSome amount accts c.db.sent)
          (pay_all json draw amount accts c)
  unfolding pay_all
  pay_all-Ends amount [] c = refl
  pay_all-Ends amount (acct ∷ accts) c =
      let paid = λ (l : List ClientMessage).
        l ≡ create_transaction seed_account_id acct.account_id amount ∷ c.db.sent in
      let stopped = PaidSome amount (acct ∷ accts) c.db.sent in
      let first = pay json draw amount acct.account_id c in
      bind-Ends (λ _ l. paid l) (λ _ l. l ≡ paid_onto amount (acct ∷ accts) c.db.sent) stopped first
        _
        (Ends-mono (λ _ l. paid l) (λ _ l. paid l) paid stopped first (λ _ l h. h)
          (λ l h. (acct ∷ [], accts, refl, h)) (pay-Ends json draw amount acct.account_id c))
        (λ _ c' h.
          Ends-mono (λ _ l. l ≡ paid_onto amount accts c'.db.sent)
            (λ _ l. l ≡ paid_onto amount (acct ∷ accts) c.db.sent)
            (PaidSome amount accts c'.db.sent) stopped (pay_all json draw amount accts c')
            (λ _ l k. k ∙ ap (paid_onto amount accts) h)
            (λ l (done, rest, split, k).
              (acct ∷ done, rest, ap (λ t. acct ∷ t) split, k ∙ ap (paid_onto amount done) h))
            (pay_all-Ends amount accts c'))

  -- The accounts that the core lists.
  abbrev pub Lists : Conn Sending → List Account → Type 0
  Lists c accts = (ask json draw get_accounts c).0 ≡ ok (get_accounts_response (Result.ok accts))

  -- What a run has sent, when it ends.
  abbrev pub Paid : ℤ → ℤ → Conn Sending → List ClientMessage → Type 0
  Paid minimum amount c l =
      (accts picked : List Account) × Lists c accts
      × Chosen minimum accts picked
      × (l ≡ paid_onto amount picked (get_accounts ∷ c.db.sent))

  -- And when it panics: only the question, or some of the payments.
  abbrev pub Stopped : ℤ → ℤ → Conn Sending → List ClientMessage → Type 0
  Stopped minimum amount c l =
      (l ≡ get_accounts ∷ c.db.sent)
      ⊎ ((accts picked : List Account) × Lists c accts
          × Chosen minimum accts picked
          × PaidSome amount picked (get_accounts ∷ c.db.sent) l)

  asked_step :
      (minimum amount : ℤ) (c : Conn Sending) (resp : ServerMessage) (c' : Conn Sending)
      → c'.db.sent ≡ get_accounts ∷ c.db.sent
      → (ask json draw get_accounts c).0 ≡ ok resp
      → Ends
          (λ _ l. Paid minimum amount c l)
          (Stopped minimum amount c)
          (bind
            (from_outcome (accounts_of resp) c')
            (λ accts. pay_all json draw amount (filter (is_eligible minimum) accts)))
  unfolding bind from_outcome
  asked_step minimum amount c (get_accounts_response (Result.ok accts)) c' sent listed =
      let chosen_ones = filter (is_eligible minimum) accts in
      Ends-mono (λ _ l. l ≡ paid_onto amount chosen_ones c'.db.sent)
        (λ _ l. Paid minimum amount c l) (PaidSome amount chosen_ones c'.db.sent)
        (Stopped minimum amount c)
        (pay_all json draw amount (filter (is_eligible minimum) accts) c')
        (λ _ l k. (
          accts,
          chosen_ones,
          listed,
          filter-Chosen minimum accts,
          k ∙ ap (paid_onto amount (filter (is_eligible minimum) accts)) sent,
        ))
        (λ l (done, rest, split, k). inr (
          accts,
          chosen_ones,
          listed,
          filter-Chosen minimum accts,
          (done, rest, split, k ∙ ap (paid_onto amount done) sent),
        ))
        (pay_all-Ends amount (filter (is_eligible minimum) accts) c')
  asked_step minimum amount c (get_accounts_response (Result.err e)) c' sent listed = inl sent
  asked_step minimum amount c _ c' sent listed = inl sent

-- A stipend of more than 100 sends nothing. Any other one that ends has asked for the accounts and
-- then sent one payment of the amount, from the seed account, to each account that the core lists with
-- funds at or below the minimum (`Chosen`), in the order of the list, and to no other; and one that panics
-- has sent only the question, or the payments to the first of these accounts.
pub stipend-Ends :
    (json : Json) (draw : ℕ → Draw) (minimum amount : ℤ) (c : Conn Sending)
    → Ends
        (λ _ l. if ltb_ℤ (pos 100) amount then l ≡ c.db.sent else Paid json draw minimum amount c l)
        (λ l. if ltb_ℤ (pos 100) amount then ⊥ else Stopped json draw minimum amount c l)
        (stipend json draw minimum amount c)
unfolding stipend
stipend-Ends json draw minimum amount c = go (ltb_ℤ (pos 100) amount)
  where
    go :
        (b : Bool)
        → Ends
            (λ _ l. if b then l ≡ c.db.sent else Paid json draw minimum amount c l)
            (λ l. if b then ⊥ else Stopped json draw minimum amount c l)
            ((if b
                then pure tt
                else (ask json draw get_accounts >>= λ resp.
                    from_outcome (accounts_of resp) >>= λ accts.
                    pay_all json draw amount (filter (is_eligible minimum) accts)))
              c)
    go true = refl
    go false =
        let asked = λ (resp : ServerMessage) (l : List ClientMessage).
          (l ≡ get_accounts ∷ c.db.sent) × ((ask json draw get_accounts c).0 ≡ ok resp) in
        bind-Ends asked (λ _ l. Paid json draw minimum amount c l)
          (Stopped json draw minimum amount c) (ask json draw get_accounts c) _
          (Ends-mono asked asked (λ l. l ≡ get_accounts ∷ c.db.sent)
            (Stopped json draw minimum amount c) (ask json draw get_accounts c) (λ resp l h. h)
            (λ l h. inl h) (ask-Ends json draw get_accounts c))
          (λ resp c' h. asked_step json draw minimum amount c resp c' h.0 h.1)
