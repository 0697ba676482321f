-- ===== src/Tests/Bank.antt =====
-- The bank of src/bin/core.rs on a concrete payment.
use mathlib.Mathlib.Data.Multiset.Defs.{of_list}
use mathlib.Mathlib.Data.Multiset.MapFold as MapFold
use capycoin.Base.{◌≡◌, refl, [], ◌∷◌, arith}
use capycoin.Base.Int.{pos, ◌+ℤ◌, ◌-ℤ◌}
use capycoin.Sqlite.{integer}
use capycoin.Ledger.{new_transaction}
use capycoin.Account.{seed_account_id}
use capycoin.Core.{AppError, message_dispatch}
use capycoin.Core.Answers.{Gives}
use capycoin.Core.Bank.{bank_of, adjust, payment, Promises}
use capycoin.Core.Bank.Refines.{message_dispatch-Promises}
use capycoin.Tests.Fixtures.{seed_row, alice_row, calm, alice, two_accounts}
use capycoin.Tests.Ready.{two_accounts-IsConsistent}
use capycoin.Tests.Core.{debug_sql, fresh, fresh_ne_seed, pay_packet}

-- The two accounts after a payment of 250, in the other order of the rows.
paid :
    MapFold.map
      (adjust (payment fresh seed_account_id alice (pos 250)))
      (of_list (alice_row ∷ seed_row ∷ []))
    ≡ of_list (
        record alice_row { funds = integer (pos 250) }
        ∷ record seed_row { funds = integer (pos 99750) }
        ∷ [])
unfolding new_transaction ◌+ℤ◌ ◌-ℤ◌
paid = refl

message_dispatch-Promises_example :
    Gives
      (λ resp after.
        Promises calm fresh
          (bank_of two_accounts.db)
          pay_packet.message
          resp.message
          (bank_of after))
      (message_dispatch calm debug_sql {F = AppError} fresh pay_packet two_accounts)
message_dispatch-Promises_example =
    message_dispatch-Promises calm debug_sql fresh pay_packet two_accounts two_accounts-IsConsistent
      (omega arith, omega arith) fresh_ne_seed
