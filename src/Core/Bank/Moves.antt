-- ===== src/Core/Bank/Moves.antt =====
-- A payment that `save_transaction` of src/ledger.rs saves, on the bag of accounts: its two updates are
-- one adjustment of each account.
use mathlib.Core.Path.{subst}
use capycoin.Base.{
  ◌≡◌, ◌≢◌, refl, inl, inr, none, List, [], ◌∷◌, map, ◌==◌, ◌∙◌, sym, ap, arith, Bool-cases, All,
  ==_ne,
}
use capycoin.Base.Int.{ℤ, pos, ◌+ℤ◌, ◌-ℤ◌, ◌≤ℤ◌, int_laws, i64_max}
use capycoin.Sqlite.{integer, sql_add}
use capycoin.Database.{Uuid, AccountRow, Transaction}
use capycoin.Account.Table.{find_account}
use capycoin.Account.Sound.{IsSound, IsFunded, amount_of, amount_of_nonneg, total, total_nonneg}
use capycoin.Ledger.Statements.{Holds}
use capycoin.Ledger.Transfer.{moved}
use capycoin.Ledger.Conserve.{IsFunded-integer, sql_add_ok}
use capycoin.Core.Bank.{adjust}

-- What is known of each row: only the sender's has its key, and an addition of the amount fits an `i64`.
abbrev IsReady : Transaction → ℤ → AccountRow → Type 0
IsReady t held r =
    (r.account_id ≡ t.sender_account_id → r.funds ≡ integer held)
    × IsFunded r.funds
    × (amount_of r.funds +ℤ t.amount ≤ℤ i64_max)

absent-ne :
    (id : Uuid) (r : AccountRow) (rows : List AccountRow)
    → find_account id (r ∷ rows) ≡ none
    → (r.account_id ≢ id) × (find_account id rows ≡ none)
absent-ne id r rows e = elim (Bool-cases (r.account_id == id)) [
  | inl here ↦ ground arith
  | inr passed ↦ (λ own. ground arith, ground arith)
]

module _ (t : Transaction) (held : ℤ) where
  All-absent :
      (rows : List AccountRow)
      → IsSound rows
      → find_account t.sender_account_id rows ≡ none
      → total rows +ℤ t.amount ≤ℤ i64_max
      → All (IsReady t held) rows
  unfolding total
  All-absent [] sound absent fits = tt
  All-absent (r ∷ rows) sound absent fits =
      let (other, later) = absent-ne t.sender_account_id r rows absent in
      let funds = amount_of_nonneg r.funds sound.0 in
      let rest = total_nonneg rows sound.2 in
      (
        ((λ own. absurd (other own)), sound.0, omega (int_laws, funds, rest, fits)),
        All-absent rows sound.2 later (omega (int_laws, funds, rest, fits)),
      )

  All-IsReady :
      (rows : List AccountRow)
      → IsSound rows
      → Holds t.sender_account_id held rows
      → total rows +ℤ t.amount ≤ℤ i64_max
      → All (IsReady t held) rows
  unfolding total
  All-IsReady [] sound holds fits = tt
  All-IsReady (r ∷ rows) sound holds fits =
      let funds = amount_of_nonneg r.funds sound.0 in
      let rest = total_nonneg rows sound.2 in
      let below : amount_of r.funds +ℤ t.amount ≤ℤ i64_max = omega (int_laws, funds, rest, fits) in
      let fits' : total rows +ℤ t.amount ≤ℤ i64_max = omega (int_laws, funds, rest, fits) in
      elim (Bool-cases (r.account_id == t.sender_account_id)) [
        | inl here ↦
            let own : r.account_id ≡ t.sender_account_id = ground arith in
            let is_row : r ≡ holds.row = ground (arith, holds.found) in
            (
              ((λ _. ap (λ (q : AccountRow). q.funds) is_row ∙ holds.funds), sound.0, below),
              All-absent rows sound.2 (subst (λ id. find_account id rows ≡ none) own sound.1) fits',
            )
        | inr passed ↦ (
          ((λ own. ground arith), sound.0, below),
          All-IsReady rows sound.2
              (record { row = holds.row; found = ground (arith, holds.found); funds = holds.funds })
              fits',
        )
      ]

  moved_row :
      (r : AccountRow)
      → t.sender_account_id ≢ t.receiver_account_id
      → pos 1 ≤ℤ t.amount
      → IsReady t held r
      → moved t (held -ℤ t.amount) (r ∷ []) ≡ adjust t r ∷ []
  moved_row r ne positive ready =
      let cell = IsFunded-integer r.funds ready.1 in
      let nonneg = amount_of_nonneg r.funds ready.1 in
      let credited : sql_add r.funds t.amount ≡ integer (amount_of r.funds +ℤ t.amount) =
        ap (λ c. sql_add c t.amount) cell
        ∙ sql_add_ok (amount_of r.funds) t.amount nonneg positive ready.2 in
      elim (Bool-cases (r.account_id == t.sender_account_id)) [
        | inl is_sender ↦
            let own : r.account_id ≡ t.sender_account_id = ground arith in
            let not_receiver = ==_ne r.account_id t.receiver_account_id (λ e. ne (sym own ∙ e)) in
            let same : amount_of r.funds ≡ held = ap amount_of (ready.0 own) in
            rw (is_sender, not_receiver, same) refl
        | inr not_sender ↦ rw (not_sender, credited) refl
      ]

  -- The rows after the two updates are the adjusted rows.
  moved-adjust :
      (rows : List AccountRow)
      → t.sender_account_id ≢ t.receiver_account_id
      → pos 1 ≤ℤ t.amount
      → All (IsReady t held) rows
      → moved t (held -ℤ t.amount) rows ≡ map (adjust t) rows
  moved-adjust [] ne positive ready = refl
  moved-adjust (r ∷ rows) ne positive ready =
      let first = moved_row r ne positive ready.0 in
      let rest = moved-adjust rows ne positive ready.1 in cc (first, rest)

  pub moved-eq-map :
      (rows : List AccountRow)
      → t.sender_account_id ≢ t.receiver_account_id
      → pos 1 ≤ℤ t.amount
      → IsSound rows
      → Holds t.sender_account_id held rows
      → total rows +ℤ t.amount ≤ℤ i64_max
      → moved t (held -ℤ t.amount) rows ≡ map (adjust t) rows
  moved-eq-map rows ne positive sound holds fits =
      moved-adjust rows ne positive (All-IsReady rows sound holds fits)
