-- ===== src/Ledger/Save.antt =====
-- `save_transaction` of src/ledger.rs, whatever calls fail: it moves the amount and logs it, or it
-- leaves the database as it was.
use mathlib.Core.Path.{subst}
use capycoin.Base.{◌≡◌, refl, ◌≢◌, arith, ◌==◌, sym}
use capycoin.Base.Int.{ℤ, pos, ◌≤ℤ◌, ltb_ℤ, IsI64, eqb_ℤ}
use capycoin.Sqlite.{Engine, Conn}
use capycoin.Sqlite.Laws.{
  Settles, Ensures, raise_if-Settles, assert-Settles, bind-Settles, transaction-Settles,
}
use capycoin.Database.{Time, Transaction, Database}
use capycoin.Ledger.{
  TransactionReceipt, sql_error, transfer, save_transaction, amount_is_zero, amount_is_negative,
  fee_is_negative, sender_receiver_are_the_same,
}
use capycoin.Ledger.Transfer.{Moved, IsCapped, transfer-Moved}

-- The transaction as the ledger stores it: with the time of the call.
abbrev pub stamped : Time → Transaction → Transaction
stamped now t = record t { timestamp = now }

abbrev pub receipt_of : Time → Transaction → ℤ → TransactionReceipt
receipt_of now t funds = record {
  transaction_id = t.transaction_id;
  timestamp = now;
  sender_account_id = t.sender_account_id;
  receiver_account_id = t.receiver_account_id;
  sender_account_funds = funds;
  fee = t.fee;
}

-- What a successful call did.
pub record Saved (now : Time) (t : Transaction) (receipt : TransactionReceipt)
    (before after : Database) : Type 0 where
  pub funds : ℤ
  pub receipted : receipt ≡ receipt_of now t funds
  pub positive : pos 1 ≤ℤ t.amount
  pub distinct : t.sender_account_id ≢ t.receiver_account_id
  pub moves : Moved (stamped now t) funds before after

-- On accounts that are sound, with an `i64` for an amount and no fee, and whatever calls fail,
-- `save_transaction` ends in one of two ways and never panics: it is successful and has moved and
-- logged the amount, as `Saved` states, or it returns an error and the database is as it was.
pub save_transaction-Settles :
    (engine : Engine) (now : Time) (t : Transaction) (c : Conn Database)
    → IsCapped c.db
    → IsI64 t.amount
    → t.fee ≡ pos 0
    → Settles c.db
        (λ receipt after. Saved now t receipt c.db after)
        (save_transaction engine now t c)
unfolding save_transaction
save_transaction-Settles engine now t c cap i64 free =
    raise_if-Settles c.db _ (eqb_ℤ t.amount (pos 0)) amount_is_zero c _ refl λ not_zero.
      raise_if-Settles c.db _ (ltb_ℤ t.amount (pos 0)) amount_is_negative c _ refl λ not_negative.
        raise_if-Settles c.db _ (ltb_ℤ t.fee (pos 0)) fee_is_negative c _ refl λ _.
          raise_if-Settles c.db _ (t.sender_account_id == t.receiver_account_id)
            sender_receiver_are_the_same c _ refl
            λ distinct. assert-Settles c.db _ (eqb_ℤ t.fee (pos 0)) c _ (rw free refl) (
              let positive : pos 1 ≤ℤ t.amount = ground arith in
              bind-Settles c.db (λ funds after. Moved (stamped now t) funds c.db after) _ _ _
                (transaction-Settles engine _ sql_error (transfer engine (stamped now t)) c
                  (λ begun same.
                    subst
                      (λ d.
                        Ensures (λ funds after. Moved (stamped now t) funds d after)
                          (transfer engine (stamped now t) begun))
                      same
                      (transfer-Moved engine (stamped now t) i64 positive free begun
                        (subst IsCapped (sym same) cap))))
                (λ funds c' m. record {
                  funds = funds;
                  receipted = refl;
                  positive = positive;
                  distinct = ground arith;
                  moves = m;
                }))
