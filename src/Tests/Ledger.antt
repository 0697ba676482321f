-- ===== src/Tests/Ledger.antt =====
-- src/ledger.rs on the tables of `Fixtures`.
use mathlib.Core.List.{Mem}
use capycoin.Base.{◌≡◌, ◌⊎◌, ◌↔◌, refl, true, some, List, [], ◌∷◌}
use capycoin.Base.Int.{ℤ, pos, ◌+ℤ◌, ◌-ℤ◌}
use capycoin.Sqlite.{ok, err, execute, sql_add}
use capycoin.Sqlite.Laws.{Settles}
use capycoin.Database.{AccountRow, Transaction}
use capycoin.Account.{seed_account_id}
use capycoin.Ledger.Statements.{Holds}
use capycoin.Account.Table.{update_funds}
use capycoin.Ledger.{
  save_transaction, get_transactions, get_transaction, find_transaction, transfer, post, add_i64,
  sub_i64, deduct, insert_transaction, sender_account_not_enough_funds,
}
use capycoin.Ledger.Save.{Saved, save_transaction-Settles}
use capycoin.Ledger.Conserve.{Conserves}
use capycoin.Ledger.Consistent.{IsConsistent, save_transaction-Conserves}
use capycoin.Ledger.Reconcile.{save_transaction-IsConsistent}
use capycoin.Ledger.Verdict.{verdict, save_transaction-verdict}
use capycoin.Ledger.Query.{get_transactions_iff, get_transaction-Settles}
use capycoin.Tests.Fixtures.{
  calm, calm-IsQuiet, busy, today, later, alice, two_accounts, payment, paid,
}
use capycoin.Tests.Ready.{
  two_accounts-IsConsistent, two_accounts-IsCapped, payment-IsI64, payment_saved,
}

-- The sixth call fails: nothing is paid.
payment_rolled_back :
    (save_transaction busy later payment (record two_accounts { calls = 0 })).1.db ≡ two_accounts.db
unfolding execute save_transaction transfer post add_i64 sub_i64 insert_transaction deduct ◌+ℤ◌ ◌-ℤ◌
    update_funds sql_add
payment_rolled_back = refl

-- Nobody pays more than there is.
overdrawn :
    (save_transaction calm later (record payment { amount = pos 100001 }) two_accounts).0
    ≡ err sender_account_not_enough_funds
unfolding execute save_transaction transfer add_i64 sub_i64 deduct ◌+ℤ◌ ◌-ℤ◌
overdrawn = refl

save_transaction-Settles_example :
    Settles two_accounts.db
      (λ r after. Saved later payment r two_accounts.db after)
      (save_transaction busy later payment two_accounts)
save_transaction-Settles_example =
    save_transaction-Settles busy later payment two_accounts two_accounts-IsCapped payment-IsI64
      refl

save_transaction-verdict_example :
    (save_transaction calm later payment two_accounts).0
    ≡ verdict later payment two_accounts-IsCapped.rows []
save_transaction-verdict_example =
    save_transaction-verdict calm later payment two_accounts two_accounts-IsCapped [] calm-IsQuiet
      refl payment-IsI64.1 refl

save_transaction-Conserves_example :
    (held : ℤ) × (rows : List AccountRow) × (paid.db.accounts ≡ some rows)
    × Holds seed_account_id held two_accounts-IsCapped.rows
    × Conserves payment held two_accounts-IsCapped.rows rows
save_transaction-Conserves_example =
    save_transaction-Conserves calm later payment two_accounts paid two_accounts-IsCapped
      payment-IsI64 refl payment_saved

save_transaction-IsConsistent_example :
    IsConsistent (save_transaction busy later payment two_accounts).1.db
save_transaction-IsConsistent_example =
    save_transaction-IsConsistent busy later payment two_accounts two_accounts-IsConsistent
      payment-IsI64 refl

-- The one payment is listed.
payment_listed :
    get_transactions calm alice (today, later) paid
    ≡ (ok (record payment { timestamp = later } ∷ []), record paid { calls = 16 })
unfolding execute get_transactions
payment_listed = refl

get_transactions_iff_example :
    (txs : List Transaction) × (paid.db.transactions ≡ some txs)
    × ((t : Transaction)
        → Mem t (record payment { timestamp = later } ∷ []) ↔ (
            Mem t txs
            × ((t.sender_account_id ≡ alice) ⊎ (t.receiver_account_id ≡ alice))
            × (calm.time_le today t.timestamp ≡ true)
            × (calm.time_le t.timestamp later ≡ true)))
get_transactions_iff_example =
    get_transactions_iff calm alice today later paid (record paid { calls = 16 }) payment_listed

get_transaction-Settles_example :
    Settles paid.db
      (λ t after.
        (after ≡ paid.db)
        × ((txs : List Transaction) × (paid.db.transactions ≡ some txs)
            × (find_transaction 11 txs ≡ some t))
        × ((t.sender_account_id ≡ alice) ⊎ (t.receiver_account_id ≡ alice)))
      (get_transaction calm alice 11 paid)
get_transaction-Settles_example = get_transaction-Settles calm alice 11 paid
