-- ===== src/Ledger/Statements.antt =====
-- What a successful statement of src/ledger.rs did, and that none panics.
use capycoin.Base.{ℕ, ◌≡◌, ◌≢◌, inl, inr, none, some, List, [], ◌∷◌, ◌++◌, arith, Option-cases}
use capycoin.Base.Int.{ℤ, pos, ◌+ℤ◌, ◌-ℤ◌, ◌≤ℤ◌, int_laws, IsI64, i64_max}
use capycoin.Sqlite.{Cell, integer, ok, panic, Outcome}
use capycoin.Database.{Uuid, AccountRow, Transaction, Database}
use capycoin.Account.Table.{find_account, set_funds, hits, update_funds}
use capycoin.Ledger.{
  add_i64, sub_i64, deduct, find_transaction, insert_transaction, select_funds, update_statement,
  insert_statement,
}

add_i64_ok :
    {E : Type 0} (a b : ℤ) → IsI64 (a +ℤ b) → ◌≡◌ {A = Outcome E ℤ} (add_i64 a b) (ok (a +ℤ b))
unfolding add_i64
add_i64_ok a b h = ground arith

sub_i64_ok :
    {E : Type 0} (a b : ℤ) → IsI64 (a -ℤ b) → ◌≡◌ {A = Outcome E ℤ} (sub_i64 a b) (ok (a -ℤ b))
unfolding sub_i64
sub_i64_ok a b h = ground arith

-- With no fee and non-negative funds, the deduction of a positive amount stays in the `i64` range.
pub deduct_ok :
    {E : Type 0} (held : ℤ) (t : Transaction)
    → pos 0 ≤ℤ held
    → held ≤ℤ i64_max
    → pos 1 ≤ℤ t.amount
    → t.amount ≤ℤ i64_max
    → t.fee ≡ pos 0
    → ◌≡◌ {A = Outcome E ℤ} (deduct held t) (ok (held -ℤ t.amount))
unfolding deduct
deduct_ok held t h h' p p' free =
    let fee_free : t.amount +ℤ t.fee ≡ t.amount = rw free (omega int_laws) in
    rw (add_i64_ok t.amount t.fee (rw fee_free (omega arith)))
      (rw fee_free (sub_i64_ok held t.amount (omega int_laws)))

-- The account is there and holds `held`.
pub record Holds (id : Uuid) (held : ℤ) (rows : List AccountRow) : Type 0 where
  pub row : AccountRow
  pub found : find_account id rows ≡ some row
  pub funds : row.funds ≡ integer held

pub record Selected (id : Uuid) (held : ℤ) (before after : Database) : Type 0 where
  pub rows : List AccountRow
  pub was : before.accounts ≡ some rows
  pub holds : Holds id held rows
  pub same : after ≡ before

pub select_funds-Selected :
    (id : Uuid) (d : Database) (held : ℤ) (d' : Database)
    → select_funds id d ≡ ok (held, d')
    → Selected id held d d'
select_funds-Selected id d held d' h = elim (Option-cases d.accounts) [
  | inl missing ↦ ground arith
  | inr (rows, present) ↦ elim (Option-cases (find_account id rows)) [
    | inl unknown ↦ ground arith
    | inr (row, found) ↦ record {
      rows = rows;
      was = present;
      holds = record { row = row; found = found; funds = ground arith };
      same = ground arith;
    }
  ]
]

pub record Updated (f : Cell → Cell) (id : Uuid) (count : ℕ) (before after : Database)
    : Type 0 where
  pub rows : List AccountRow
  pub was : before.accounts ≡ some rows
  pub counted : count ≡ hits f id rows
  pub becomes : after.accounts ≡ some (set_funds f id rows)
  pub kept : after.transactions ≡ before.transactions

pub update_statement-Updated :
    (f : Cell → Cell) (id : Uuid) (d : Database) (count : ℕ) (d' : Database)
    → update_statement f id d ≡ ok (count, d')
    → Updated f id count d d'
unfolding update_funds
update_statement-Updated f id d count d' h = elim (Option-cases d.accounts) [
  | inl missing ↦ ground arith
  | inr (rows, present) ↦ record {
    rows = rows;
    was = present;
    counted = ground arith;
    becomes = ground arith;
    kept = ground arith;
  }
]

pub record Logged (t : Transaction) (before after : Database) : Type 0 where
  pub txs : List Transaction
  pub was : before.transactions ≡ some txs
  pub is_new : find_transaction t.transaction_id txs ≡ none
  pub becomes : after.transactions ≡ some (txs ++ t ∷ [])
  pub kept : after.accounts ≡ before.accounts

pub insert_statement-Logged :
    (t : Transaction) (d d' : Database) → insert_statement t d ≡ ok (tt, d') → Logged t d d'
unfolding insert_transaction
insert_statement-Logged t d d' h = elim (Option-cases d.transactions) [
  | inl missing ↦ ground arith
  | inr (txs, present) ↦ record {
    txs = txs;
    was = present;
    is_new = ground arith;
    becomes = ground arith;
    kept = ground arith;
  }
]

pub select_funds-ne-panic : (id : Uuid) (d : Database) → select_funds id d ≢ panic
select_funds-ne-panic id d h = ground arith

pub update_statement-ne-panic :
    (f : Cell → Cell) (id : Uuid) (d : Database) → update_statement f id d ≢ panic
unfolding update_funds
update_statement-ne-panic f id d h = ground arith

pub insert_statement-ne-panic : (t : Transaction) (d : Database) → insert_statement t d ≢ panic
unfolding insert_transaction
insert_statement-ne-panic t d h = ground arith
