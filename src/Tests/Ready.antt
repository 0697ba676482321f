-- ===== src/Tests/Ready.antt =====
-- The databases of `Fixtures` keep the invariants.
use capycoin.Base.{◌≡◌, refl, arith}
use capycoin.Base.Int.{◌+ℤ◌, ◌-ℤ◌, IsI64}
use capycoin.Sqlite.{ok, execute, sql_add}
use capycoin.Account.{create_seed_account, save_account}
use capycoin.Account.Table.{insert_account, update_funds}
use capycoin.Account.Save.{Inserted, save_account_ok}
use capycoin.Ledger.{insert_transaction, add_i64, sub_i64, deduct, post, transfer, save_transaction}
use capycoin.Ledger.Transfer.{IsCapped}
use capycoin.Ledger.Save.{Saved, save_transaction-Settles}
use capycoin.Sqlite.Laws.{Settles-ok}
use capycoin.Ledger.Consistent.{IsConsistent, IsConsistent-IsCapped, opening, Inserted-IsConsistent}
use capycoin.Core.Start.{empty-IsConsistent}
use capycoin.Tests.Fixtures.{
  calm, today, later, receipt, alice_account, new_tables, seeded, two_accounts, payment, paid,
}

pub seeded-Inserted : Inserted create_seed_account new_tables.db seeded.db
unfolding execute save_account insert_account create_seed_account
seeded-Inserted = (save_account_ok calm today create_seed_account new_tables {c' = seeded} refl).1

pub seeded-IsConsistent : IsConsistent seeded.db
unfolding opening
seeded-IsConsistent =
    Inserted-IsConsistent create_seed_account seeded-Inserted refl
      (empty-IsConsistent new_tables.db refl refl)

pub alice-Inserted : Inserted alice_account seeded.db two_accounts.db
unfolding execute save_account insert_account
alice-Inserted = (save_account_ok calm today alice_account seeded {c' = two_accounts} refl).1

pub two_accounts-IsConsistent : IsConsistent two_accounts.db
unfolding opening
two_accounts-IsConsistent =
    Inserted-IsConsistent alice_account alice-Inserted refl seeded-IsConsistent

pub two_accounts-IsCapped : IsCapped two_accounts.db
two_accounts-IsCapped = IsConsistent-IsCapped two_accounts-IsConsistent

pub payment-IsI64 : IsI64 payment.amount
payment-IsI64 = (omega arith, omega arith)

-- The payment runs to its receipt.
pub payment_saved : save_transaction calm later payment two_accounts ≡ (ok receipt, paid)
unfolding execute save_transaction transfer post add_i64 sub_i64 insert_transaction deduct ◌+ℤ◌ ◌-ℤ◌
    update_funds sql_add
payment_saved = refl

pub payment-Saved : Saved later payment receipt two_accounts.db paid.db
payment-Saved =
    Settles-ok two_accounts.db (λ r after. Saved later payment r two_accounts.db after) _
      (save_transaction-Settles calm later payment two_accounts two_accounts-IsCapped payment-IsI64
        refl)
      payment_saved
