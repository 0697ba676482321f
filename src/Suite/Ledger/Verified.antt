-- ===== src/Suite/Ledger/Verified.antt =====
-- The tests of src/ledger.rs pass.
use capycoin.Base.{Bool, ℕ, ◌<◌, ◌≡◌, refl, arith}
use capycoin.Base.Int.{◌+ℤ◌, ◌-ℤ◌}
use capycoin.Sqlite.{execute}
use capycoin.Database.{Uuid, Time}
use capycoin.Account.{new_account, create_accounts_table, save_account}
use capycoin.Account.Table.{insert_account}
use capycoin.Ledger.{
  new_transaction, create_ledger_table, save_transaction, get_transactions, transfer, deduct,
  add_i64, sub_i64,
}
use capycoin.Suite.{unwrap, expect_err, Passes}
use capycoin.Suite.Ledger.{
  Ordered, create_tables, test_new_transaction, test_create_ledger_table, test_transaction_save_get,
  test_transaction_sender_not_exist, test_transaction_sender_not_enough_funds,
  test_transaction_receiver_not_exist, test_transaction_negative_amount,
  test_transaction_zero_amount, test_transaction_negative_fee, test_get_transactions_none,
  test_get_transactions_none_in_range,
}
use capycoin.Suite.Ledger.Made.{
  self, different, zero_one, transaction_made, create_tables_ok, first_saved, payment_refused,
}

module _ (epoch : Time) (ids : ℕ → Uuid) (clock : ℕ → Time) (time_le : ℕ → ℕ → Bool)
    (distinct : (i j : ℕ) → ids i ≡ ids j → i ≡ j) (ticks : (i j : ℕ) → i < j → clock i < clock j)
    (order : Ordered epoch clock time_le) where
  test_new_transaction-Passes : Passes (test_new_transaction epoch ids clock time_le)
  unfolding execute test_new_transaction new_transaction
  test_new_transaction-Passes = (
    tt,
    ground (
      arith,
      different epoch ids clock time_le distinct ticks order 2 5 (λ e. omega arith),
      ticks 0 1 (omega arith),
    ),
  )

  test_create_ledger_table-Passes : Passes (test_create_ledger_table epoch ids clock time_le)
  unfolding execute test_create_ledger_table create_ledger_table unwrap
  test_create_ledger_table-Passes = (tt, refl)

  test_transaction_sender_not_exist-Passes :
      Passes (test_transaction_sender_not_exist epoch ids clock time_le)
  unfolding execute test_transaction_sender_not_exist create_tables create_ledger_table
      create_accounts_table save_transaction transfer new_transaction unwrap expect_err
  test_transaction_sender_not_exist-Passes =
      (tt, ground (arith, zero_one epoch ids clock time_le distinct ticks order))

  test_transaction_save_get-Passes : Passes (test_transaction_save_get epoch ids clock time_le)
  unfolding execute test_transaction_save_get get_transactions unwrap
  test_transaction_save_get-Passes = (
    tt,
    rw (transaction_made epoch ids clock time_le distinct ticks order)
        (ground (arith, self epoch ids clock time_le distinct ticks order 0, order.0, order.1)),
  )

  test_get_transactions_none_in_range-Passes :
      Passes (test_get_transactions_none_in_range epoch ids clock time_le)
  unfolding execute test_get_transactions_none_in_range get_transactions unwrap
  test_get_transactions_none_in_range-Passes = (
    tt,
    rw (transaction_made epoch ids clock time_le distinct ticks order)
        (ground (arith, self epoch ids clock time_le distinct ticks order 0, order.2)),
  )

  test_transaction_sender_not_enough_funds-Passes :
      Passes (test_transaction_sender_not_enough_funds epoch ids clock time_le)
  unfolding execute test_transaction_sender_not_enough_funds create_tables create_ledger_table
      create_accounts_table save_account insert_account new_account save_transaction transfer deduct
      add_i64 sub_i64 ◌+ℤ◌ ◌-ℤ◌ new_transaction unwrap expect_err
  test_transaction_sender_not_enough_funds-Passes = (
    tt,
    ground (
      arith,
      zero_one epoch ids clock time_le distinct ticks order,
      self epoch ids clock time_le distinct ticks order 0,
    ),
  )

  test_transaction_receiver_not_exist-Passes :
      Passes (test_transaction_receiver_not_exist epoch ids clock time_le)
  unfolding execute test_transaction_receiver_not_exist unwrap expect_err
  test_transaction_receiver_not_exist-Passes = (
    tt,
    rw
        (
          create_tables_ok epoch ids clock time_le distinct ticks order,
          first_saved epoch ids clock time_le distinct ticks order (clock 1),
          payment_refused epoch ids clock time_le distinct ticks order,
        )
        refl,
  )

  test_transaction_negative_amount-Passes :
      Passes (test_transaction_negative_amount epoch ids clock time_le)
  unfolding execute test_transaction_negative_amount save_transaction new_transaction expect_err
  test_transaction_negative_amount-Passes = (tt, refl)

  test_transaction_zero_amount-Passes :
      Passes (test_transaction_zero_amount epoch ids clock time_le)
  unfolding execute test_transaction_zero_amount save_transaction new_transaction expect_err
  test_transaction_zero_amount-Passes = (tt, refl)

  test_transaction_negative_fee-Passes :
      Passes (test_transaction_negative_fee epoch ids clock time_le)
  unfolding execute test_transaction_negative_fee save_transaction new_transaction expect_err
  test_transaction_negative_fee-Passes = (tt, refl)

  test_get_transactions_none-Passes : Passes (test_get_transactions_none epoch ids clock time_le)
  unfolding execute test_get_transactions_none create_ledger_table get_transactions unwrap
  test_get_transactions_none-Passes = (tt, refl)

-- Every test passes.
abbrev pub LedgerSuite : Time → (ℕ → Uuid) → (ℕ → Time) → (ℕ → ℕ → Bool) → Type 0
LedgerSuite epoch ids clock time_le =
    Passes (test_new_transaction epoch ids clock time_le)
    × Passes (test_create_ledger_table epoch ids clock time_le)
    × Passes (test_transaction_save_get epoch ids clock time_le)
    × Passes (test_transaction_sender_not_exist epoch ids clock time_le)
    × Passes (test_transaction_sender_not_enough_funds epoch ids clock time_le)
    × Passes (test_transaction_receiver_not_exist epoch ids clock time_le)
    × Passes (test_transaction_negative_amount epoch ids clock time_le)
    × Passes (test_transaction_zero_amount epoch ids clock time_le)
    × Passes (test_transaction_negative_fee epoch ids clock time_le)
    × Passes (test_get_transactions_none epoch ids clock time_le)
    × Passes (test_get_transactions_none_in_range epoch ids clock time_le)

-- Each test of src/ledger.rs passes, whatever distinct ids are drawn and at whatever increasing times
-- that are stored in an order as `Ordered` says, with a database that fails no call.
pub ledger_tests-Pass :
    (epoch : Time) (ids : ℕ → Uuid) (clock : ℕ → Time) (time_le : ℕ → ℕ → Bool)
    → ((i j : ℕ) → ids i ≡ ids j → i ≡ j)
    → ((i j : ℕ) → i < j → clock i < clock j)
    → Ordered epoch clock time_le
    → LedgerSuite epoch ids clock time_le
ledger_tests-Pass epoch ids clock time_le distinct ticks order = (
  test_new_transaction-Passes epoch ids clock time_le distinct ticks order,
  test_create_ledger_table-Passes epoch ids clock time_le distinct ticks order,
  test_transaction_save_get-Passes epoch ids clock time_le distinct ticks order,
  test_transaction_sender_not_exist-Passes epoch ids clock time_le distinct ticks order,
  test_transaction_sender_not_enough_funds-Passes epoch ids clock time_le distinct ticks order,
  test_transaction_receiver_not_exist-Passes epoch ids clock time_le distinct ticks order,
  test_transaction_negative_amount-Passes epoch ids clock time_le distinct ticks order,
  test_transaction_zero_amount-Passes epoch ids clock time_le distinct ticks order,
  test_transaction_negative_fee-Passes epoch ids clock time_le distinct ticks order,
  test_get_transactions_none-Passes epoch ids clock time_le distinct ticks order,
  test_get_transactions_none_in_range-Passes epoch ids clock time_le distinct ticks order,
)
