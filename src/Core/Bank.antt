-- ===== src/Core/Bank.antt =====
-- The bank that src/bin/core.rs keeps, without the order of the rows of its tables: a bag of accounts
-- and a bag of entries, and what each message does to them.
pub mod Moves
pub mod Refines
use mathlib.Core.Bool.{Bool-discrete}
use mathlib.Mathlib.Data.Multiset.Defs as Multiset
use mathlib.Mathlib.Data.Multiset.Defs.{Multiset, of_list}
use mathlib.Mathlib.Data.Multiset.ZeroCons.{cons}
use mathlib.Mathlib.Data.Multiset.MapFold as MapFold
use mathlib.Mathlib.Data.Multiset.Filter as Filter
use capycoin.Base.{
  ◌≡◌, refl, ◌≢◌, ◌⊎◌, Bool, true, false, Option, none, some, List, [], ◌==◌, if◌then◌else◌,
}
use capycoin.Base.Int.{ℤ, pos, ◌+ℤ◌, ◌-ℤ◌, ◌≤ℤ◌}
use capycoin.Sqlite.{Engine, integer}
use capycoin.Database.{Uuid, AccountRow, Transaction, Database}
use capycoin.Account.{Account, AccountCreatedResult, row_of, new_account}
use capycoin.Account.Sound.{amount_of}
use capycoin.Ledger.{TransactionReceipt, new_transaction, selects}
use capycoin.Ledger.Save.{stamped}
use capycoin.Message.{
  Result, ServerError, ClientMessage, create_new_account, get_account, get_accounts,
  get_transactions, get_transaction, create_transaction, ServerMessage, create_new_account_response,
  get_account_response, get_accounts_response, get_transactions_response, get_transaction_response,
  create_transaction_response,
}
use capycoin.Core.{Fresh}

pub record Bank : Type 0 where
  pub accounts : Multiset AccountRow
  pub entries : Multiset Transaction

abbrev pub bag_of : {A : Type 0} → Option (List A) → Multiset A
bag_of none = of_list []
bag_of (some rows) = of_list rows

-- A table that is missing holds nothing.
abbrev pub bank_of : Database → Bank
bank_of d = record { accounts = bag_of d.accounts; entries = bag_of d.transactions }

abbrev pub open_account : Account → Bank → Bank
open_account a b = record b { accounts = cons (row_of a) b.accounts }

-- What a payment does to an account.
abbrev pub adjust : Transaction → AccountRow → AccountRow
adjust t r =
    if r.account_id == t.sender_account_id
    then record r { funds = integer (amount_of r.funds -ℤ t.amount) }
    else if r.account_id == t.receiver_account_id
    then record r { funds = integer (amount_of r.funds +ℤ t.amount) }
    else r

abbrev pub pay : Transaction → Bank → Bank
pay t b = record { accounts = MapFold.map (adjust t) b.accounts; entries = cons t b.entries }

abbrev pub is_true : (b : Bool) → Dec (b ≡ true)
is_true b = Bool-discrete b true

-- The entries that pass a test.
abbrev pub select : (Transaction → Bool) → Multiset Transaction → Multiset Transaction
select p entries = Filter.filter (λ t. is_true (p t)) entries

-- An account that has the funds for a payment.
abbrev pub Affords : Uuid → ℤ → ℤ → Bank → Type 0
Affords id amount left b =
    (r : AccountRow) × Multiset.Mem b.accounts r
    × (r.account_id ≡ id)
    × (left ≡ amount_of r.funds -ℤ amount)
    × (pos 0 ≤ℤ left)

-- A response with a value meets `Q`; one with an error says that the bank is as it was.
abbrev pub Told : {A : Type 0} → Bank → (A → Bank → Type 0) → Result ServerError A → Bank → Type 0
Told before Q (Result.ok a) after = Q a after
Told before Q (Result.err e) after = after ≡ before

-- The payment that a message asks for.
abbrev pub payment : Fresh → Uuid → Uuid → ℤ → Transaction
payment fresh sender_id receiver_id amount =
    stamped fresh.now (new_transaction fresh.id fresh.made sender_id receiver_id amount (pos 0))

module _ (engine : Engine) (fresh : Fresh) (before : Bank) where
  -- What the bank promises for each message.
  abbrev pub Promises : ClientMessage → ServerMessage → Bank → Type 0
  Promises create_new_account resp after =
      (r : Result ServerError AccountCreatedResult) × (resp ≡ create_new_account_response r)
      × Told before
          (λ res b.
            (res ≡ record { account_id = fresh.id; timestamp = fresh.now })
            × (b ≡ open_account (new_account fresh.id fresh.made) before))
          r after
  Promises (get_account account_id) resp after =
      (r : Result ServerError Account) × (resp ≡ get_account_response r)
      × Told before
          (λ a b.
            (b ≡ before) × (a.account_id ≡ account_id) × Multiset.Mem before.accounts (row_of a))
          r after
  Promises get_accounts resp after =
      (r : Result ServerError (List Account)) × (resp ≡ get_accounts_response r)
      × Told before (λ res b. (b ≡ before) × (MapFold.map row_of (of_list res) ≡ before.accounts)) r
          after
  Promises (get_transactions account_id start end) resp after =
      (r : Result ServerError (List Transaction)) × (resp ≡ get_transactions_response r)
      × Told before
          (λ res b.
            (b ≡ before)
            × (of_list res ≡ select (selects engine account_id start end) before.entries))
          r after
  Promises (get_transaction account_id transaction_id) resp after =
      (r : Result ServerError Transaction) × (resp ≡ get_transaction_response r)
      × Told before
          (λ t b.
            (b ≡ before)
            × Multiset.Mem before.entries t
            × ((t.sender_account_id ≡ account_id) ⊎ (t.receiver_account_id ≡ account_id)))
          r after
  Promises (create_transaction sender_id receiver_id amount) resp after =
      (r : Result ServerError TransactionReceipt) × (resp ≡ create_transaction_response r)
      × Told before
          (λ receipt b.
            Affords sender_id amount receipt.sender_account_funds before
            × (sender_id ≢ receiver_id)
            × (pos 1 ≤ℤ amount)
            × (b ≡ pay (payment fresh sender_id receiver_id amount) before))
          r after
