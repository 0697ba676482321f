-- ===== src/Ledger/Entries.antt =====
-- The numbers in the core's database: the amounts of the ledger (src/ledger.rs) and the funds of the
-- accounts (src/account.rs), within the coin that is minted.
use mathlib.Core.Path.{subst}
use mathlib.Core.List.{Mem, mem-cons}
use mathlib.Core.Logic.Or
use capycoin.Base.{
  ◌≡◌, inl, inr, Bool, true, false, ◌&&◌, not, Option, none, some, List, [], ◌∷◌, arith, ◌==◌,
  Bool-cases, ==_ne, Each, Each-nil, Each-cons, Each-append,
}
use capycoin.Base.Int.{ℤ, pos, ◌-ℤ◌, ◌≤ℤ◌, leb_ℤ, eqb_ℤ, int_laws}
use capycoin.Sqlite.{integer, real}
use capycoin.Database.{Uuid, Time, AccountRow, Transaction, Database}
use capycoin.Account.Table.{find_account}
use capycoin.Account.Sound.{
  IsSound, IsFunded, find_account-IsFunded, amount_of, amount_of_nonneg, total, total_nonneg,
  amount_of-le-total,
}
use capycoin.Ledger.{TransactionReceipt, find_transaction}
use capycoin.Ledger.Statements.{Holds}
use capycoin.Ledger.Save.{Saved, stamped}
use capycoin.Ledger.Consistent.{IsConsistent, minted-le}

-- An amount of the coin.
abbrev pub in_supply : ℤ → Bool
in_supply a = leb_ℤ (pos 0) a && leb_ℤ a (pos 100000)

abbrev pub is_stocked : AccountRow → Bool
is_stocked r = elim r.funds [ integer a ↦ in_supply a | real ↦ false ]

-- An entry of the ledger: some of the coin, without a fee, from one account to another one.
abbrev pub is_entry : Transaction → Bool
is_entry t =
    leb_ℤ (pos 1) t.amount
    && (leb_ℤ t.amount (pos 100000)
        && (eqb_ℤ t.fee (pos 0) && not (t.sender_account_id == t.receiver_account_id)))

abbrev pub IsEntered : Option (List Transaction) → Type 0
IsEntered none = Unit
IsEntered (some txs) = Each is_entry txs

is_stocked_of :
    (r : AccountRow) → IsFunded r.funds → amount_of r.funds ≤ℤ pos 100000 → is_stocked r ≡ true
is_stocked_of r h k = ground (arith, h)

Each-is_stocked :
    (rows : List AccountRow) → IsSound rows → total rows ≤ℤ pos 100000 → Each is_stocked rows
unfolding total
Each-is_stocked [] sound capped = Each-nil is_stocked
Each-is_stocked (r ∷ rows) sound capped =
    Each-cons is_stocked r rows
      (is_stocked_of r sound.0 (omega (int_laws, total_nonneg rows sound.2)))
      (Each-is_stocked rows sound.2 (omega (int_laws, amount_of_nonneg r.funds sound.0)))

-- While the accounts and the ledger agree, each account holds an amount of the coin.
pub IsConsistent-Each : {d : Database} (c : IsConsistent d) → Each is_stocked c.rows
IsConsistent-Each c = Each-is_stocked c.rows c.sound (rw c.closed (minted-le c.rows))

pub find_transaction-Mem :
    (id : Uuid) (txs : List Transaction) (t : Transaction)
    → find_transaction id txs ≡ some t
    → Mem t txs
find_transaction-Mem id [] t e = cc
find_transaction-Mem id (u ∷ txs) t e = elim (Bool-cases (u.transaction_id == id)) [
  | inl here ↦ let same : t ≡ u = ground arith in mem-cons.1 (Or.inl same)
  | inr passed ↦ mem-cons.1 (Or.inr (find_transaction-Mem id txs t (ground arith)))
]

-- An account that is found holds an amount of the coin.
pub find_account-is_stocked :
    (id : Uuid) {d : Database} (c : IsConsistent d) (rows : List AccountRow) (r : AccountRow)
    → d.accounts ≡ some rows
    → find_account id rows ≡ some r
    → is_stocked r ≡ true
find_account-is_stocked id c rows r present found =
    let same : rows ≡ c.rows = cc (c.is_accounts, present) in
    let found' : find_account id c.rows ≡ some r = rw (← same) found in
    let below = amount_of-le-total id c.rows c.sound found' in
    let capped : total c.rows ≤ℤ pos 100000 = rw c.closed (minted-le c.rows) in
    is_stocked_of r (find_account-IsFunded id c.rows c.sound found')
      (omega (int_laws, below, capped))

module _ {now : Time} {t : Transaction} {receipt : TransactionReceipt} {before after : Database}
    (c : IsConsistent before) (free : t.fee ≡ pos 0)
    (saved : Saved now t receipt before after) where
  -- The sender held an amount of the coin.
  pub held_bounded : saved.moves.held ≤ℤ pos 100000
  held_bounded =
      let p = saved.moves.posted in
      let same : p.rows ≡ c.rows = cc (c.is_accounts, p.was) in
      let holds : Holds t.sender_account_id saved.moves.held c.rows =
        subst (Holds t.sender_account_id saved.moves.held) same saved.moves.sender_holds in
      let below : saved.moves.held ≤ℤ total c.rows =
        subst (λ x. amount_of x ≤ℤ total c.rows) holds.funds
          (amount_of-le-total t.sender_account_id c.rows c.sound holds.found) in
      let capped : total c.rows ≤ℤ pos 100000 = rw c.closed (minted-le c.rows) in
      omega (int_laws, below, capped)

  pub solvent : pos 0 ≤ℤ saved.moves.held -ℤ t.amount
  solvent = rw (← saved.moves.deducted) saved.moves.enough

  -- A transaction that is saved is an entry.
  Saved-is_entry : is_entry (stamped now t) ≡ true
  Saved-is_entry =
      let fits : t.amount ≤ℤ pos 100000 = omega (int_laws, held_bounded, solvent) in
      rw (free, ==_ne t.sender_account_id t.receiver_account_id saved.distinct)
        (ground (arith, fits, saved.positive))

  -- The receipt shows an amount of the coin.
  pub Saved-in_supply : (in_supply receipt.sender_account_funds && in_supply receipt.fee) ≡ true
  Saved-in_supply =
      let left : saved.moves.held -ℤ t.amount ≤ℤ pos 100000 =
        omega (int_laws, held_bounded, saved.positive) in
      rw (saved.receipted, free, saved.moves.deducted) (ground (arith, left, solvent))

pub Saved-IsEntered :
    {now : Time} {t : Transaction} {receipt : TransactionReceipt} {before after : Database}
    → IsConsistent before
    → t.fee ≡ pos 0
    → Saved now t receipt before after
    → IsEntered before.transactions
    → IsEntered after.transactions
Saved-IsEntered {now} {t} {before} c free saved entered =
    let p = saved.moves.posted in
    rw p.transactions_after (
      Each-append is_entry p.txs (stamped now t ∷ []) (subst IsEntered p.logged entered)
        (Each-cons is_entry (stamped now t) [] (Saved-is_entry c free saved) (Each-nil is_entry)))
