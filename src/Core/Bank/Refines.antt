-- ===== src/Core/Bank/Refines.antt =====
-- `message_dispatch` of src/bin/core.rs does what the bank promises (Core/Bank).
use mathlib.Core.Path.{ap₂}
use mathlib.Core.List as CoreList
use mathlib.Core.List.{Mem, Perm, mem-cons, append-nil}
use mathlib.Core.List.Perm
use mathlib.Core.Logic.Or
use mathlib.Core.Logic.{ite}
use mathlib.Mathlib.Data.Multiset.Defs.{Multiset, of_list, coe-eq-coe, mem-coe}
use mathlib.Mathlib.Data.Multiset.ZeroCons.{cons}
use mathlib.Mathlib.Data.Multiset.AddSub as AddSub
use Prim.Native.String.{String}
use capycoin.Base.{
  ◌≡◌, ◌≢◌, refl, inl, inr, Bool, true, false, some, List, [], ◌∷◌, ◌++◌, ◌==◌, ◌∙◌, sym, ap, arith,
  Bool-cases, filter, if◌then◌else◌,
}
use capycoin.Base.Int.{pos, ◌+ℤ◌, ◌≤ℤ◌, int_laws, i64_max}
use capycoin.Sqlite.{SqlError, Engine, Outcome, ok, err, panic, Conn}
use capycoin.Database.{Uuid, Time, AccountRow, Transaction, Database}
use capycoin.Account.{Account, row_of, new_account, seed_account_id}
use capycoin.Account.Table.{find_account}
use capycoin.Account.Sound.{IsSound, total}
use capycoin.Account.Save.{Inserted}
use capycoin.Ledger.{TransactionReceipt, new_transaction, selects}
use capycoin.Ledger.Save.{Saved, stamped}
use capycoin.Ledger.Consistent.{IsConsistent, minted-le}
use capycoin.Ledger.Entries.{find_transaction-Mem, held_bounded, solvent}
use capycoin.Message.{
  IsTyped, Result, ServerError, ClientMessage, ClientMessagePacket, create_new_account, get_account,
  get_accounts, get_transactions, get_transaction, create_transaction, ServerMessage,
}
use capycoin.Core.{AppError, Fresh, message_dispatch}
use capycoin.Core.Answers.{Gives, Replies, Answers}
use capycoin.Core.Dispatch.{message_dispatch-Answers}
use capycoin.Core.Bank.{Bank, bag_of, bank_of, open_account, pay, is_true, Affords, Told, Promises}
use capycoin.Core.Bank.Moves.{moved-eq-map}

bag-append :
    {A : Type 0} (xs : List A) (x : A)
    → ◌≡◌ {A = Multiset A} (of_list (xs ++ x ∷ [])) (cons x (of_list xs))
bag-append xs x = AddSub.add_comm (of_list xs) (of_list (x ∷ []))

same_bank :
    {a a' : Multiset AccountRow} {e e' : Multiset Transaction}
    → a ≡ a'
    → e ≡ e'
    → ◌≡◌ {A = Bank} (record { accounts = a; entries = e }) (record { accounts = a'; entries = e' })
same_bank p q = ap₂ (λ a e. record { accounts = a; entries = e }) p q

Inserted-open_account :
    (a : Account) (before after : Database)
    → Inserted a before after
    → bank_of after ≡ open_account a (bank_of before)
Inserted-open_account a before after i =
    same_bank (rw (i.was, i.added) (bag-append i.rows (row_of a))) (ap bag_of i.kept)

find_account-Mem :
    (id : Uuid) (rows : List AccountRow) (r : AccountRow)
    → find_account id rows ≡ some r
    → Mem r rows × (r.account_id ≡ id)
find_account-Mem id [] r e = cc
find_account-Mem id (q ∷ rows) r e = elim (Bool-cases (q.account_id == id)) [
  | inl here ↦ let same : r ≡ q = ground arith in (mem-cons.1 (Or.inl same), ground arith)
  | inr passed ↦
      let (later, own) = find_account-Mem id rows r (ground arith) in
      (mem-cons.1 (Or.inr later), own)
]

filter-select :
    (p : Transaction → Bool) (txs : List Transaction)
    → CoreList.filter (λ t. is_true (p t)) txs ≡ filter p txs
filter-select p [] = refl
filter-select p (t ∷ txs) = go (p t) (filter-select p txs)
  where
    go :
        (b : Bool) {xs ys : List Transaction}
        → xs ≡ ys
        → ite {C = List Transaction} (is_true b) (t ∷ xs) xs ≡ (if b then t ∷ ys else ys)
    go true e = ap (λ l. t ∷ l) e
    go false e = e

module _ {now : Time} {t : Transaction} {receipt : TransactionReceipt} {before after : Database}
    (c : IsConsistent before) (free : t.fee ≡ pos 0)
    (saved : Saved now t receipt before after) where
  Saved-pay : bank_of after ≡ pay (stamped now t) (bank_of before)
  Saved-pay =
      let p = saved.moves.posted in
      let same : c.rows ≡ p.rows = cc (c.is_accounts, p.was) in
      let sound : IsSound p.rows = rw (← same) c.sound in
      let capped : total c.rows ≤ℤ pos 100000 = rw c.closed (minted-le c.rows) in
      let held = held_bounded c free saved in
      let enough = solvent c free saved in
      let fits' : total c.rows +ℤ t.amount ≤ℤ i64_max = omega (int_laws, capped, held, enough) in
      let fits : total p.rows +ℤ t.amount ≤ℤ i64_max = rw (← same) fits' in
      same_bank
        (rw (p.was, p.accounts_after, saved.moves.deducted)
          (ap of_list (
            moved-eq-map (stamped now t) saved.moves.held p.rows saved.distinct saved.positive sound
              saved.moves.sender_holds fits)))
        (rw (p.logged, p.transactions_after) (bag-append p.txs (stamped now t)))

  Saved-Affords : Affords t.sender_account_id t.amount receipt.sender_account_funds (bank_of before)
  Saved-Affords =
      let p = saved.moves.posted in
      let holds = saved.moves.sender_holds in
      let (m, own) = find_account-Mem t.sender_account_id p.rows holds.row holds.found in
      (
        holds.row,
        rw p.was (mem-coe.1 m),
        own,
        rw (saved.receipted, saved.moves.deducted, holds.funds) refl,
        rw saved.receipted saved.moves.enough,
      )

Gives-mono :
    {D E A : Type 0} (Q R : A → D → Type 0) (r : Outcome E A × Conn D)
    → ((a : A) (d : D) → Q a d → R a d)
    → Gives Q r
    → Gives R r
Gives-mono Q R (ok a, c) k h = k a c.db h
Gives-mono Q R (err e, c) k h = h
Gives-mono Q R (panic, c) k h = h

module _ (engine : Engine) (fresh : Fresh) (before : Database) (ready : IsConsistent before) where
  Told-of_Replies :
      {A : Type 0} (Q : A → Database → Type 0) (R : A → Bank → Type 0) (r : Result ServerError A)
      (after : Database)
      → ((a : A) → Q a after → R a (bank_of after))
      → Replies before Q r after
      → Told (bank_of before) R r (bank_of after)
  Told-of_Replies Q R (Result.ok a) after k h = k a h
  Told-of_Replies Q R (Result.err e) after k same = ap bank_of same

  Answers-Promises :
      (m : ClientMessage) (resp : ServerMessage) (after : Database)
      → Answers engine fresh before m resp after
      → Promises engine fresh (bank_of before) m resp (bank_of after)
  unfolding new_account new_transaction
  Answers-Promises create_new_account resp after (r, is_r, h) = (
    r,
    is_r,
    Told-of_Replies _ _ r after (λ a (is_a, i). (is_a, Inserted-open_account _ before after i)) h,
  )
  Answers-Promises (get_account account_id) resp after (r, is_r, h) = (
    r,
    is_r,
    Told-of_Replies _ _ r after
        (λ a (same, (rows, present, found)).
          let (m, own) = find_account-Mem account_id rows (row_of a) found in
          (ap bank_of same, own, rw present (mem-coe.1 m)))
        h,
  )
  Answers-Promises get_accounts resp after (r, is_r, h) = (
    r,
    is_r,
    Told-of_Replies _ _ r after
        (λ res (same, (rows, present, perm)). (ap bank_of same, rw present (coe-eq-coe.1 perm))) h,
  )
  Answers-Promises (get_transactions account_id start end) resp after (r, is_r, h) = (
    r,
    is_r,
    Told-of_Replies _ _ r after
        (λ res (same, (txs, present, perm)). (
          ap bank_of same,
          rw present (
              coe-eq-coe.1 perm
              ∙ ap of_list (sym (filter-select (selects engine account_id start end) txs))),
        ))
        h,
  )
  Answers-Promises (get_transaction account_id transaction_id) resp after (r, is_r, h) = (
    r,
    is_r,
    Told-of_Replies _ _ r after
        (λ t (same, (txs, present, found), party). (
          ap bank_of same,
          rw present (mem-coe.1 (find_transaction-Mem transaction_id txs t found)),
          party,
        ))
        h,
  )
  Answers-Promises (create_transaction sender_id receiver_id amount) resp after (r, is_r, h) = (
    r,
    is_r,
    Told-of_Replies _ _ r after
        (λ receipt saved. (
          Saved-Affords ready refl saved,
          saved.distinct,
          saved.positive,
          Saved-pay ready refl saved,
        ))
        h,
  )

-- The core is a bank: a message that is dispatched on a database whose accounts and ledger agree,
-- whatever calls fail, does what `Promises` says to the bag of accounts and the bag of entries, whatever
-- the order of the rows. A new account is added without funds; a payment that is affordable takes the
-- amount from the one account, adds it to the other and is entered; queries give what is in the bags and
-- change nothing; and a response with an error means that nothing has changed. The id that the call
-- draws is not the seed account's.
pub message_dispatch-Promises :
    (engine : Engine) (debug_sql : SqlError → String) (fresh : Fresh) (packet : ClientMessagePacket)
    (c : Conn Database)
    → IsConsistent c.db
    → IsTyped packet.message
    → fresh.id ≢ seed_account_id
    → Gives
        (λ resp after.
          Promises engine fresh (bank_of c.db) packet.message resp.message (bank_of after))
        (message_dispatch engine debug_sql {F = AppError} fresh packet c)
message_dispatch-Promises engine debug_sql fresh packet c ready typed ne =
    Gives-mono _ _ (message_dispatch engine debug_sql fresh packet c)
      (λ resp after (_, _, answers, _).
        Answers-Promises engine fresh c.db ready packet.message resp.message after answers)
      (message_dispatch-Answers engine debug_sql fresh packet c ready typed ne)
