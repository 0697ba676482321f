-- ===== src/Ledger/Transfer.antt =====
-- The transaction of `save_transaction` (src/ledger.rs), from its SELECT to its commit.
use mathlib.Core.Path.{subst, subst₂, sym}
use capycoin.Base.{
  ℕ, ◌≡◌, refl, ◌≢◌, inl, inr, none, some, List, [], ◌∷◌, ◌++◌, arith, ◌==◌, Option-cases, ◌∙◌,
}
use capycoin.Base.Int.{ℤ, pos, ◌-ℤ◌, ◌≤ℤ◌, ltb_ℤ, IsI64, i64_max}
use capycoin.Sqlite.{Cell, integer, Conn, Engine, sql_add}
use capycoin.Sqlite.Laws.{Ensures, Ensures-mono, statement_then, raise_if_then, from_outcome_then}
use capycoin.Database.{Uuid, AccountRow, Transaction, Database}
use capycoin.Account.Table.{find_account, set_funds}
use capycoin.Account.Sound.{
  IsSound, total, amount_of-le-total, find_account-IsFunded, hits_absent,
  find_account-set_funds-none,
}
use capycoin.Ledger.Statements.{
  Holds, Selected, select_funds-Selected, select_funds-ne-panic, deduct_ok, Updated,
  update_statement-Updated, update_statement-ne-panic, Logged, insert_statement-Logged,
  insert_statement-ne-panic,
}
use capycoin.Ledger.{
  sql_error, sender_error, sender_account_not_enough_funds, sender_account_does_not_exist,
  receiver_account_does_not_exist, post, deduct, find_transaction, select_funds, update_statement,
  insert_statement, transfer,
}

-- The rows after the two UPDATEs.
abbrev pub moved : Transaction → ℤ → List AccountRow → List AccountRow
moved t tx_funds rows =
    set_funds (λ c. sql_add c t.amount) t.receiver_account_id
      (set_funds (λ _. integer tx_funds) t.sender_account_id rows)

-- What the three writes did: both accounts exist, both rows were updated, and the ledger has the
-- transaction, under a new key, at its end.
pub record Posted (t : Transaction) (tx_funds : ℤ) (before after : Database) : Type 0 where
  pub rows : List AccountRow
  pub txs : List Transaction
  pub receiver : AccountRow
  pub was : before.accounts ≡ some rows
  pub logged : before.transactions ≡ some txs
  pub receiver_found : find_account t.receiver_account_id rows ≡ some receiver
  pub is_new : find_transaction t.transaction_id txs ≡ none
  pub accounts_after : after.accounts ≡ some (moved t tx_funds rows)
  pub transactions_after : after.transactions ≡ some (txs ++ t ∷ [])

-- What the transaction did, when it was committed: the sender held enough, and the writes were made
-- with what is left.
pub record Moved (t : Transaction) (tx_funds : ℤ) (before after : Database) : Type 0 where
  pub held : ℤ
  pub posted : Posted t tx_funds before after
  pub sender_holds : Holds t.sender_account_id held posted.rows
  pub enough : pos 0 ≤ℤ tx_funds
  pub deducted : tx_funds ≡ held -ℤ t.amount

-- A database whose accounts are sound, and hold no more than an `i64` in all.
pub record IsCapped (d : Database) : Type 0 where
  pub rows : List AccountRow
  pub is_table : d.accounts ≡ some rows
  pub sound : IsSound rows
  pub capped : total rows ≤ℤ i64_max

-- The last write completes what the two before it have done.
Posted-intro :
    (t : Transaction) (tx_funds : ℤ) (d d₁ d₂ d₃ : Database) (sent received : ℕ)
    → Updated (λ _. integer tx_funds) t.sender_account_id sent d d₁
    → Updated (λ c. sql_add c t.amount) t.receiver_account_id received d₁ d₂
    → received ≢ 0
    → Logged t d₂ d₃
    → Posted t tx_funds d d₃
Posted-intro t tx_funds d d₁ d₂ d₃ sent received u v some_row l =
    let debited = set_funds (λ _. integer tx_funds) t.sender_account_id u.rows in
    let same : v.rows ≡ debited = cc in
    elim (Option-cases (find_account t.receiver_account_id u.rows)) [
      | inl missing ↦ ground (
        arith,
        hits_absent (λ c. sql_add c t.amount) t.receiver_account_id debited,
        find_account-set_funds-none (λ _. integer tx_funds) t.sender_account_id
            t.receiver_account_id u.rows missing,
      )
      | inr (receiver, present) ↦ record {
        rows = u.rows;
        txs = l.txs;
        receiver = receiver;
        was = u.was;
        logged = cc;
        receiver_found = present;
        is_new = l.is_new;
        accounts_after = rw (← same) (l.kept ∙ v.becomes);
        transactions_after = l.becomes;
      }
    ]

-- Funds that are selected from a capped database are an `i64` that is not negative.
Selected-bounds :
    (id : Uuid) (held : ℤ) {d d' : Database}
    → IsCapped d
    → Selected id held d d'
    → (pos 0 ≤ℤ held) × (held ≤ℤ i64_max)
Selected-bounds id held cap sel =
    let same : sel.rows ≡ cap.rows = cc in
    let found : find_account id cap.rows ≡ some sel.holds.row = rw (← same) sel.holds.found in
    let funded = rw sel.holds.funds at (find_account-IsFunded id cap.rows cap.sound found) in
    let below = rw sel.holds.funds at (amount_of-le-total id cap.rows cap.sound found) in
    (funded, omega (arith, below))

Moved-intro :
    (t : Transaction) (held : ℤ) (d d' : Database)
    → Selected t.sender_account_id held d d'
    → pos 0 ≤ℤ held -ℤ t.amount
    → (f : ℤ) (after : Database) → (f ≡ held -ℤ t.amount) × Posted t (held -ℤ t.amount) d' after
    → Moved t f d after
Moved-intro t held d d' sel enough f after (e, p) =
    let posted = subst₂ (λ x y. Posted t x y after) (sym e) sel.same p in
    let same : sel.rows ≡ posted.rows = cc (posted.was, sel.was) in
    record {
      held = held;
      posted = posted;
      sender_holds = subst (Holds t.sender_account_id held) same sel.holds;
      enough = rw e enough;
      deducted = e;
    }

module _ (engine : Engine) (t : Transaction) where
  post-Posted :
      (tx_funds : ℤ) (c : Conn Database)
      → Ensures
          (λ f after. (f ≡ tx_funds) × Posted t tx_funds c.db after)
          (post engine t tx_funds c)
  unfolding post
  post-Posted tx_funds c =
      let debit = λ (_ : Cell). integer tx_funds in
      let credit = λ (c : Cell). sql_add c t.amount in
      let s = t.sender_account_id in
      let r = t.receiver_account_id in
      statement_then engine _ sql_error (update_statement debit s) c _
        (update_statement-ne-panic debit s c.db)
        λ sent c₁ u. raise_if_then _ (sent == 0) sender_account_does_not_exist c₁ _ λ _.
          statement_then engine _ sql_error (update_statement credit r) c₁ _
            (update_statement-ne-panic credit r c₁.db)
            λ received c₂ v.
              raise_if_then _ (received == 0) receiver_account_does_not_exist c₂ _ λ some_row.
                statement_then engine _ sql_error (insert_statement t) c₂ _
                  (insert_statement-ne-panic t c₂.db)
                  λ _ c₃ l. (
                    refl,
                    Posted-intro t tx_funds c.db c₁.db c₂.db c₃.db sent received
                        (update_statement-Updated debit s c.db sent c₁.db u)
                        (update_statement-Updated credit r c₁.db received c₂.db v) (ground arith)
                        (insert_statement-Logged t c₂.db c₃.db l),
                  )

  module _ (i64 : IsI64 t.amount) (positive : pos 1 ≤ℤ t.amount) (free : t.fee ≡ pos 0) where
    pub transfer-Moved :
        (begun : Conn Database)
        → IsCapped begun.db
        → Ensures (λ tx_funds after. Moved t tx_funds begun.db after) (transfer engine t begun)
    unfolding transfer
    transfer-Moved begun cap =
        statement_then engine _ sender_error (select_funds t.sender_account_id) begun _
          (select_funds-ne-panic t.sender_account_id begun.db)
          λ held c selected.
            let sel = select_funds-Selected t.sender_account_id begun.db held c.db selected in
            let (not_negative, in_range) = Selected-bounds t.sender_account_id held cap sel in
            from_outcome_then _ (deduct held t) (held -ℤ t.amount) c _
              (deduct_ok held t not_negative in_range positive (i64.1) free)
              (raise_if_then _ (ltb_ℤ (held -ℤ t.amount) (pos 0)) sender_account_not_enough_funds c
                _
                λ solvent.
                  Ensures-mono _ _ (post engine t (held -ℤ t.amount) c)
                    (Moved-intro t held begun.db c.db sel (ground arith))
                    (post-Posted (held -ℤ t.amount) c))
