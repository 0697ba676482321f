-- ===== src/Ledger/Reconcile.antt =====
-- A transaction that `save_transaction` (src/ledger.rs) saves keeps accounts and ledger in agreement.
use mathlib.Core.Path.{subst}
use capycoin.Base.{
  ◌≡◌, refl, ◌≢◌, inl, inr, none, List, [], ◌∷◌, ◌++◌, arith, ◌==◌, ◌∙◌, sym, Bool-cases, ap, All,
  All-append, ==_ne, ==_iff,
}
use capycoin.Base.Int.{ℤ, pos, ◌+ℤ◌, ◌-ℤ◌, int_laws, parts_of_eq, IsI64}
use capycoin.Database.{Uuid, Time, AccountRow, Transaction, Database}
use capycoin.Account.Table.{find_account}
use capycoin.Account.{seed_account_id}
use capycoin.Sqlite.{Engine, Conn, Outcome, ok, err, panic}
use capycoin.Sqlite.Laws.{Settles}
use capycoin.Ledger.{TransactionReceipt, TransactionError, save_transaction}
use capycoin.Ledger.Statements.{Holds}
use capycoin.Ledger.Transfer.{moved}
use capycoin.Ledger.Conserve.{Conserves, Holds-unique, Holds-of_found}
use capycoin.Ledger.Save.{Saved, stamped, save_transaction-Settles}
use capycoin.Ledger.History.{flow, history, history-append, IsKnown, All-IsKnown_mono}
use capycoin.Ledger.Consistent.{
  opening, minted, IsConsistent, IsConsistent-IsCapped, Saved-Conserves,
}

module _ (t : Transaction) (ne : t.sender_account_id ≢ t.receiver_account_id)
    (free : t.fee ≡ pos 0) where
  flow_sender : flow t.sender_account_id t ≡ pos 0 -ℤ t.amount
  unfolding flow
  flow_sender =
      rw
        (
          ==_ne t.receiver_account_id t.sender_account_id (λ e. ne (sym e)),
          (==_iff t.sender_account_id t.sender_account_id).1 refl,
          free,
        )
        (omega int_laws)

  flow_receiver : flow t.receiver_account_id t ≡ t.amount
  unfolding flow
  flow_receiver =
      rw
        (
          ==_ne t.sender_account_id t.receiver_account_id ne,
          (==_iff t.receiver_account_id t.receiver_account_id).1 refl,
        )
        (omega int_laws)

  flow_other :
      (id : Uuid) → id ≢ t.sender_account_id → id ≢ t.receiver_account_id → flow id t ≡ pos 0
  unfolding flow
  flow_other id not_sender not_receiver =
      rw
        (
          ==_ne t.sender_account_id id (λ e. not_sender (sym e)),
          ==_ne t.receiver_account_id id (λ e. not_receiver (sym e)),
        )
        (omega int_laws)

  module _ (rows rows' : List AccountRow) (held had : ℤ) (cons : Conserves t held rows rows')
      (sender : Holds t.sender_account_id held rows)
      (receiver : Holds t.receiver_account_id had rows) where
    -- Every account has changed by the flow of the transaction.
    changes_by_flow :
        (id : Uuid) (now : ℤ)
        → Holds id now rows'
        → (was : ℤ) × Holds id was rows × (now ≡ was +ℤ flow id t)
    changes_by_flow id now h = elim (Bool-cases (id == t.sender_account_id)) [
      | inl is_sender ↦
          let e : id ≡ t.sender_account_id = ground arith in
          let same = Holds-unique id now (held -ℤ t.amount) rows' h (rw e cons.sender) in
          (held, rw e sender, same ∙ rw (e, flow_sender) (omega int_laws))
      | inr not_sender ↦ elim (Bool-cases (id == t.receiver_account_id)) [
        | inl is_receiver ↦
            let e : id ≡ t.receiver_account_id = ground arith in
            let same =
              Holds-unique id now (had +ℤ t.amount) rows' h (rw e (cons.gain had receiver)) in
            (had, rw e receiver, same ∙ rw (e, flow_receiver) (omega int_laws))
        | inr not_receiver ↦
            let kept = cons.others id (ground arith) (ground arith) in
            (
              now,
              record { row = h.row; found = sym kept ∙ h.found; funds = h.funds },
              rw (flow_other id (ground arith) (ground arith)) (omega int_laws),
            )
      ]
    ]

-- What `Saved` says was done keeps accounts and ledger in agreement.
pub Saved-IsConsistent :
    {now : Time} {t : Transaction} {receipt : TransactionReceipt} {before after : Database}
    → IsConsistent before
    → t.fee ≡ pos 0
    → Saved now t receipt before after
    → IsConsistent after
unfolding minted
Saved-IsConsistent {now} {t} {after} c free saved =
    let p = saved.moves.posted in
    let cons = Saved-Conserves (IsConsistent-IsCapped c) saved in
    let rows' = moved (stamped now t) saved.funds p.rows in
    let same : c.rows ≡ p.rows = cc (c.is_accounts, p.was) in
    let same_txs : c.txs ≡ p.txs = cc (c.is_ledger, p.logged) in
    let keeps : (id : Uuid) → find_account id p.rows ≢ none → find_account id rows' ≢ none =
      λ id was gone. ground (arith, cons.same_accounts id) in
    let known : All (IsKnown p.rows) p.txs = rw (← same, ← same_txs) c.known in
    let receiver =
      Holds-of_found t.receiver_account_id p.rows (rw (← same) c.sound) p.receiver_found in
    record {
      rows = rows';
      txs = p.txs ++ stamped now t ∷ [];
      is_accounts = p.accounts_after;
      is_ledger = p.transactions_after;
      sound = cons.sound;
      known =
          All-append (IsKnown rows') p.txs (stamped now t ∷ [])
            (All-IsKnown_mono p.rows rows' p.txs keeps known)
            (
              (
                keeps t.sender_account_id (λ e. cc (e, saved.moves.sender_holds.found)),
                keeps t.receiver_account_id (λ e. cc (e, p.receiver_found)),
              ),
              tt,
            );
      reconciled = λ id a h.
          let (was, before, change) =
            changes_by_flow (stamped now t) saved.distinct free p.rows rows' saved.moves.held _ cons
              saved.moves.sender_holds receiver id a h in
          let recorded : was ≡ opening id +ℤ history id p.txs =
            c.reconciled id was (subst (Holds id was) (sym same) before)
            ∙ ap (λ l. opening id +ℤ history id l) same_txs in
          let appended = history-append id p.txs (stamped now t) in
          change ∙ omega (int_laws, parts_of_eq recorded, parts_of_eq appended);
      closed = cons.same_total ∙ rw (cons.same_accounts seed_account_id) (rw (← same) c.closed);
    }

-- Whatever calls fail, and whether `save_transaction` of an `i64` amount without a fee is successful or
-- not, accounts and ledger agree after it if they did before (`IsConsistent`): each account holds what it
-- began with and what the ledger's history says.
pub save_transaction-IsConsistent :
    (engine : Engine) (now : Time) (t : Transaction) (c : Conn Database)
    → IsConsistent c.db
    → IsI64 t.amount
    → t.fee ≡ pos 0
    → IsConsistent (save_transaction engine now t c).1.db
save_transaction-IsConsistent engine now t c ready i64 free =
    go (save_transaction engine now t c)
      (save_transaction-Settles engine now t c (IsConsistent-IsCapped ready) i64 free)
  where
    go :
        (r : Outcome TransactionError TransactionReceipt × Conn Database)
        → Settles c.db (λ receipt after. Saved now t receipt c.db after) r
        → IsConsistent r.1.db
    go (ok receipt, c') saved = Saved-IsConsistent ready free saved
    go (err e, c') same = subst IsConsistent (sym same) ready
    go (panic, c') h = absurd h
