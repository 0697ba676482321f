-- ===== src/Core/Extends.antt =====
-- What src/bin/core.rs keeps of its database for good: the accounts with the time of their creation, and
-- the entries of the ledger, in their order.
use mathlib.Core.Path.{subst}
use mathlib.Core.List.{IsPrefix, append_assoc, append-nil, map-append}
use capycoin.Base.{
  ◌≡◌, refl, inl, inr, Option, none, some, List, [], ◌∷◌, ◌++◌, map, ◌∙◌, sym, ap, arith,
  Option-cases,
}
use capycoin.Base.Int.{ℤ}
use capycoin.Sqlite.{Cell, Engine, Conn, sql_add, integer}
use capycoin.Database.{Uuid, Time, AccountRow, Transaction, Database}
use capycoin.Account.{Account, row_of, with_accounts, create_seed_account}
use capycoin.Account.Table.{set_funds}
use capycoin.Account.Save.{Inserted}
use capycoin.Ledger.{TransactionReceipt, with_transactions}
use capycoin.Ledger.Transfer.{moved}
use capycoin.Ledger.Save.{Saved, stamped}
use capycoin.Message.{ClientMessage, ServerMessage}
use capycoin.Core.{Fresh, start}
use capycoin.Core.Answers.{Answers, Answers_keep}
use capycoin.Core.Start.Keeps.{start_keeps}

-- What never changes of an account.
abbrev pub key : AccountRow → Uuid × Time
key r = (r.account_id, r.created)

-- A table that is there stays, and its rows by `f` come first in the later one.
abbrev pub Continues : {R K : Type 0} → (R → K) → Option (List R) → Option (List R) → Type 0
Continues f none after = Unit
Continues f (some rows) none = ⊥
Continues f (some rows) (some rows') = IsPrefix (map f rows) (map f rows')

-- No account is lost, renamed or created anew, and no entry of the ledger is lost or changed.
abbrev pub Extends : Database → Database → Type 0
Extends before after =
    Continues key before.accounts after.accounts
    × Continues (λ t. t) before.transactions after.transactions

module _ {R K : Type 0} (f : R → K) where
  Continues-refl : (o : Option (List R)) → Continues f o o
  Continues-refl none = tt
  Continues-refl (some rows) = ([], append-nil (map f rows))

  Continues-trans : (a b c : Option (List R)) → Continues f a b → Continues f b c → Continues f a c
  Continues-trans none b c h k = tt
  Continues-trans (some x) none c h k = absurd h
  Continues-trans (some x) (some y) none h k = absurd k
  Continues-trans (some x) (some y) (some z) (t, e) (u, e') =
      (t ++ u, sym (append_assoc (map f x) t u) ∙ (ap (λ l. l ++ u) e ∙ e'))

  Continues-append :
      (rows : List R) (r : R) (before after : Option (List R))
      → before ≡ some rows
      → after ≡ some (rows ++ r ∷ [])
      → Continues f before after
  Continues-append rows r before after was becomes =
      rw (was, becomes) (map f (r ∷ []), sym (map-append f rows (r ∷ [])))

Extends-refl : (d : Database) → Extends d d
Extends-refl d = (Continues-refl key d.accounts, Continues-refl (λ t. t) d.transactions)

pub Extends-of_same : (d d' : Database) → d' ≡ d → Extends d d'
Extends-of_same d d' same = subst (Extends d) (sym same) (Extends-refl d)

pub Extends-trans : (d d' d'' : Database) → Extends d d' → Extends d' d'' → Extends d d''
Extends-trans d d' d'' h k = (
  Continues-trans key d.accounts d'.accounts d''.accounts h.0 k.0,
  Continues-trans (λ t. t) d.transactions d'.transactions d''.transactions h.1 k.1,
)

-- An UPDATE of the funds changes no key.
keys-set_funds :
    (f : Cell → Cell) (id : Uuid) (rows : List AccountRow)
    → map key (set_funds f id rows) ≡ map key rows
keys-set_funds f id [] = refl
keys-set_funds f id (r ∷ rows) = ground (arith, keys-set_funds f id rows)

keys-moved :
    (t : Transaction) (funds : ℤ) (rows : List AccountRow)
    → map key (moved t funds rows) ≡ map key rows
keys-moved t funds rows =
    keys-set_funds (λ c. sql_add c t.amount) t.receiver_account_id _
    ∙ keys-set_funds (λ _. integer funds) t.sender_account_id rows

Inserted-Extends : (a : Account) (d d' : Database) → Inserted a d d' → Extends d d'
Inserted-Extends a d d' i = (
  Continues-append key i.rows (row_of a) d.accounts d'.accounts i.was i.added,
  subst (Continues (λ t. t) d.transactions) (sym i.kept) (Continues-refl (λ t. t) d.transactions),
)

Saved-Extends :
    {now : Time} {t : Transaction} {receipt : TransactionReceipt} (d d' : Database)
    → Saved now t receipt d d'
    → Extends d d'
Saved-Extends {now} {t} d d' saved =
    let p = saved.moves.posted in
    (
      rw (p.was, p.accounts_after)
          ([], append-nil (map key p.rows) ∙ sym (keys-moved (stamped now t) saved.funds p.rows)),
      Continues-append (λ t. t) p.txs _ d.transactions d'.transactions p.logged
          p.transactions_after,
    )

-- What answers a message extends the database.
pub Answers-Extends :
    (engine : Engine) (fresh : Fresh) (before : Database) (m : ClientMessage) (resp : ServerMessage)
    (after : Database)
    → Answers engine fresh before m resp after
    → Extends before after
Answers-Extends engine fresh before m resp after =
    Answers_keep engine fresh before (Extends before) (Extends-refl before)
      (λ after i. Inserted-Extends _ before after i)
      (λ sender_id receiver_id amount receipt after saved. Saved-Extends before after saved) m resp
      after

with_accounts-Extends : (d : Database) → Extends d (with_accounts d)
with_accounts-Extends d = elim (Option-cases d.accounts) [
  | inl missing ↦ rw missing (tt, Continues-refl (λ t. t) d.transactions)
  | inr (rows, present) ↦
      rw present (Continues-refl key (some rows), Continues-refl (λ t. t) d.transactions)
]

with_transactions-Extends : (d : Database) → Extends d (with_transactions d)
with_transactions-Extends d = elim (Option-cases d.transactions) [
  | inl missing ↦ rw missing (Continues-refl key d.accounts, tt)
  | inr (txs, present) ↦
      rw present (Continues-refl key d.accounts, Continues-refl (λ t. t) (some txs))
]

-- The start of `main` extends what is stored, also when it ends the process.
pub start-Extends :
    (engine : Engine) (now : Time) (d : Database) (c : Conn Database)
    → Extends d c.db
    → Extends d (start engine now c).1.db
start-Extends engine now d =
    start_keeps engine now (Extends d)
      (λ e h. Extends-trans d e (with_accounts e) h (with_accounts-Extends e))
      (λ e h. Extends-trans d e (with_transactions e) h (with_transactions-Extends e))
      (λ e e' h i. Extends-trans d e e' h (Inserted-Extends create_seed_account e e' i))
