-- ===== src/Ledger/Verdict.antt =====
-- What `save_transaction` of src/ledger.rs answers when no call fails, on every branch, against a
-- decision written from the accounts and the ledger alone.
mod Post
use mathlib.Core.Path.{subst}
use capycoin.Base.{
  ℕ, suc, ◌≡◌, refl, ◌≢◌, ◌⊎◌, inl, inr, Bool, true, false, Option, none, some, List, [], ◌∷◌, ◌++◌,
  arith, ◌==◌, if◌then◌else◌, is_some, Option-cases, ◌||◌, ◌&&◌, not, ◌∙◌, sym, Bool-cases, ap,
  ==_ne,
}
use capycoin.Base.Int.{
  ℤ, pos, ◌+ℤ◌, ◌-ℤ◌, ◌≤ℤ◌, int_laws, ltb_ℤ, IsI64, i64_max, eqb_ℤ, parts_of_eq, leb_ℤ,
}
use capycoin.Sqlite.{
  Cell, integer, sql_add, Engine, Conn, Outcome, ok, err, panic, bind, pure, constraint_violation,
  query_returned_no_rows, SqlError, map_err, raise_if, is_nonneg, statement, Sql,
}
use capycoin.Sqlite.Quiet.{
  IsQuiet, statement_ok, statement_err, raise_if_no, raise_if_yes, from_outcome_ok,
  transaction_result, assert_ok, bind-pure, map_ok,
}
use capycoin.Database.{Uuid, Time, AccountRow, Transaction, Database}
use capycoin.Account.Table.{find_account, set_funds}
use capycoin.Account.Sound.{
  amount_of, amount_of_nonneg, sql_add-is_nonneg, amount_of-le-total, find_account-IsFunded,
  set_funds-IsSound, find_account-set_funds_ne,
}
use capycoin.Ledger.{
  TransactionError, TransactionReceipt, sql_error, sender_error, transfer, post, save_transaction,
  amount_is_zero, amount_is_negative, fee_is_negative, sender_receiver_are_the_same,
  sender_account_does_not_exist, sender_account_not_enough_funds, receiver_account_does_not_exist,
  find_transaction, select_funds, deduct,
}
use capycoin.Ledger.Statements.{Holds, deduct_ok}
use capycoin.Ledger.Transfer.{IsCapped}
use capycoin.Ledger.Conserve.{Holds-of_found}
use capycoin.Ledger.Save.{receipt_of, stamped}
use Post.{post_no_receiver, post_taken, post_new}

-- What the accounts and the ledger decide of a transaction without a fee, from the sender's row on.
abbrev pub clears :
    Transaction → List AccountRow → List Transaction → AccountRow → Outcome TransactionError ℤ
clears t rows txs payer =
    if ltb_ℤ (amount_of payer.funds -ℤ t.amount) (pos 0)
    then err sender_account_not_enough_funds
    else if not (is_some (find_account t.receiver_account_id rows))
    then err receiver_account_does_not_exist
    else if is_some (find_transaction t.transaction_id txs)
    then err (sql_error constraint_violation)
    else ok (amount_of payer.funds -ℤ t.amount)

abbrev pub decided : Transaction → List AccountRow → List Transaction → Outcome TransactionError ℤ
decided t rows txs = elim (find_account t.sender_account_id rows) [
  | none ↦ err sender_account_does_not_exist
  | some payer ↦ clears t rows txs payer
]

select_absent :
    (id : Uuid) (d : Database) (rows : List AccountRow)
    → d.accounts ≡ some rows
    → find_account id rows ≡ none
    → select_funds id d ≡ err query_returned_no_rows
select_absent id d rows present missing = ground arith

select_present :
    (id : Uuid) (d : Database) (rows : List AccountRow) (held : ℤ)
    → d.accounts ≡ some rows
    → Holds id held rows
    → select_funds id d ≡ ok (held, d)
select_present id d rows held present h = ground (arith, h.found, h.funds)

module _ (engine : Engine) (quiet : IsQuiet engine) (t : Transaction) (c : Conn Database)
    (cap : IsCapped c.db) {txs : List Transaction} (logged : c.db.transactions ≡ some txs)
    (positive : pos 1 ≤ℤ t.amount) (i64 : t.amount ≤ℤ i64_max) (free : t.fee ≡ pos 0)
    (ne : t.sender_account_id ≢ t.receiver_account_id) where
  transfer_no_sender :
      find_account t.sender_account_id cap.rows ≡ none
      → (transfer engine t c).0 ≡ err sender_account_does_not_exist
  unfolding transfer
  transfer_no_sender missing =
      ap (λ r. r.0)
        (statement_err engine quiet sender_error (select_funds t.sender_account_id) c _
          (select_absent t.sender_account_id c.db cap.rows cap.is_table missing))

  module _ (payer : AccountRow)
      (paying : find_account t.sender_account_id cap.rows ≡ some payer) where
    abbrev held : ℤ
    held = amount_of payer.funds

    -- The connection after the SELECT.
    abbrev selected : Conn Database
    selected = record { db = c.db; calls = suc c.calls }

    transfer_deducted :
        transfer engine t c
        ≡ bind
            (raise_if (ltb_ℤ (held -ℤ t.amount) (pos 0)) sender_account_not_enough_funds selected)
            (λ _. post engine t (held -ℤ t.amount))
    unfolding transfer
    transfer_deducted =
        let holds = Holds-of_found t.sender_account_id cap.rows cap.sound paying in
        let funded = find_account-IsFunded t.sender_account_id cap.rows cap.sound paying in
        let below = amount_of-le-total t.sender_account_id cap.rows cap.sound paying in
        statement_ok engine quiet sender_error (select_funds t.sender_account_id) c _
          (select_present t.sender_account_id c.db cap.rows held cap.is_table holds)
        ∙ from_outcome_ok selected _ (
            deduct_ok held t (amount_of_nonneg payer.funds funded)
              (omega (arith, cap.capped, below)) positive i64 free)

    module _ (rich : ltb_ℤ (held -ℤ t.amount) (pos 0) ≡ false) where
      abbrev debited : List AccountRow
      debited = set_funds (λ _. integer (held -ℤ t.amount)) t.sender_account_id cap.rows

      enough : pos 0 ≤ℤ held -ℤ t.amount
      enough = ground arith

      post_received :
          (receiver : AccountRow)
          → find_account t.receiver_account_id cap.rows ≡ some receiver
          → (post engine t (held -ℤ t.amount) selected).0 ≡ clears t cap.rows txs payer
      post_received receiver found =
          let debit = λ (_ : Cell). integer (held -ℤ t.amount) in
          let s = t.sender_account_id in
          let r = t.receiver_account_id in
          let debited_sound = set_funds-IsSound debit s cap.rows cap.sound paying enough in
          let found' = find_account-set_funds_ne debit s r cap.rows (λ e. ne (sym e)) ∙ found in
          let funded = find_account-IsFunded r cap.rows cap.sound found in
          let passes = sql_add-is_nonneg receiver.funds t.amount funded positive in
          elim (Bool-cases (is_some (find_transaction t.transaction_id txs))) [
            | inl taken ↦
                post_taken engine quiet t (held -ℤ t.amount) selected cap.is_table logged cap.sound
                  paying enough found' debited_sound passes taken
                ∙ rw (rich, found, taken)
            | inr is_new ↦
                post_new engine quiet t (held -ℤ t.amount) selected cap.is_table logged cap.sound
                  paying enough found' debited_sound passes is_new positive free
                ∙ rw (rich, found, is_new)
          ]

      post-clears : (post engine t (held -ℤ t.amount) selected).0 ≡ clears t cap.rows txs payer
      post-clears = elim (Option-cases (find_account t.receiver_account_id cap.rows)) [
        | inl missing ↦
            post_no_receiver engine quiet t (held -ℤ t.amount) selected cap.is_table logged
              cap.sound paying enough missing
            ∙ rw (rich, missing)
        | inr (receiver, found) ↦ post_received receiver found
      ]

    transfer-clears : (transfer engine t c).0 ≡ clears t cap.rows txs payer
    transfer-clears = elim (Bool-cases (ltb_ℤ (held -ℤ t.amount) (pos 0))) [
      | inl poor ↦ ap (λ r. r.0) (transfer_deducted ∙ raise_if_yes _ selected _ poor) ∙ rw poor
      | inr rich ↦
          ap (λ r. r.0) (transfer_deducted ∙ raise_if_no _ selected _ rich) ∙ post-clears rich
    ]

  transfer-decided : (transfer engine t c).0 ≡ decided t cap.rows txs
  transfer-decided = elim (Option-cases (find_account t.sender_account_id cap.rows)) [
    | inl missing ↦ transfer_no_sender missing ∙ rw (missing, decided)
    | inr (payer, paying) ↦ transfer-clears payer paying ∙ rw (paying, decided)
  ]

-- What the accounts and the ledger decide of a transaction without a fee.
abbrev pub verdict :
    Time
    → Transaction
    → List AccountRow
    → List Transaction
    → Outcome TransactionError TransactionReceipt
verdict now t rows txs =
    if eqb_ℤ t.amount (pos 0)
    then err amount_is_zero
    else if ltb_ℤ t.amount (pos 0)
    then err amount_is_negative
    else if t.sender_account_id == t.receiver_account_id
    then err sender_receiver_are_the_same
    else map_ok (receipt_of now t) (decided t rows txs)

-- When no call fails, on sound accounts whose funds together fit an `i64` and with a ledger's table,
-- for an amount that is at most the largest `i64` and no fee, `save_transaction` answers exactly what
-- the verdict says: a receipt, or the error that the accounts and the ledger give rise to.
pub save_transaction-verdict :
    (engine : Engine) (now : Time) (t : Transaction) (c : Conn Database) (cap : IsCapped c.db)
    (txs : List Transaction)
    → IsQuiet engine
    → c.db.transactions ≡ some txs
    → t.amount ≤ℤ i64_max
    → t.fee ≡ pos 0
    → (save_transaction engine now t c).0 ≡ verdict now t cap.rows txs
unfolding save_transaction
save_transaction-verdict engine now t c cap txs quiet logged i64 free =
    elim (Bool-cases (eqb_ℤ t.amount (pos 0))) [
      | inl zero ↦ ap (λ r. r.0) (raise_if_yes _ c _ zero) ∙ rw zero
      | inr not_zero ↦ elim (Bool-cases (ltb_ℤ t.amount (pos 0))) [
        | inl negative ↦
            ap (λ r. r.0) (raise_if_no _ c _ not_zero ∙ raise_if_yes _ c _ negative)
            ∙ rw (not_zero, negative)
        | inr not_negative ↦ elim (Bool-cases (t.sender_account_id == t.receiver_account_id)) [
          | inl same ↦
              ap (λ r. r.0)
                (raise_if_no _ c _ not_zero
                  ∙ raise_if_no _ c _ not_negative
                  ∙ raise_if_no _ c _ (rw free refl)
                  ∙ raise_if_yes _ c _ same)
              ∙ rw (not_zero, not_negative, same)
          | inr distinct ↦
              ap (λ r. r.0)
                (raise_if_no _ c _ not_zero
                  ∙ raise_if_no _ c _ not_negative
                  ∙ raise_if_no _ c _ (rw free refl)
                  ∙ raise_if_no _ c _ distinct
                  ∙ assert_ok c _ (rw free refl))
              ∙ bind-pure (receipt_of now t) _
              ∙ rw (not_zero, not_negative, distinct)
                  (ap (map_ok (receipt_of now t)) (
                    transaction_result engine quiet sql_error (transfer engine (stamped now t)) c
                    ∙ transfer-decided engine quiet (stamped now t)
                        (record c { calls = suc c.calls }) cap logged (ground arith) i64 free
                        (ground arith)))
        ]
      ]
    ]
