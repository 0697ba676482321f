-- ===== src/Core/Numbers.antt =====
-- The numbers that src/bin/core.rs stores and sends, in every database that its processes come to.
use mathlib.Core.Path.{subst}
use Prim.Native.String.{String}
use capycoin.Base.{
  ℕ, ◌≡◌, refl, ◌≢◌, inl, inr, Bool, true, ◌&&◌, Option, none, some, List, map, arith, sym,
  Option-cases, Each, Each-nil, Each-Perm, Each-filter, Each-map,
}
use capycoin.Base.Int.{ℤ}
use capycoin.Sqlite.{SqlError, Engine, Outcome, ok, err, panic, Conn}
use capycoin.Database.{Transaction, Database}
use capycoin.Account.{Account, row_of, with_accounts, seed_account_id}
use capycoin.Ledger.{with_transactions, new_transaction}
use capycoin.Ledger.Consistent.{IsConsistent}
use capycoin.Ledger.Entries.{
  in_supply, is_stocked, is_entry, IsEntered, IsConsistent-Each, find_transaction-Mem,
  find_account-is_stocked, Saved-IsEntered, Saved-in_supply,
}
use capycoin.Message.{
  Result, Json, ClientMessage, create_new_account, get_account, get_accounts, get_transactions,
  get_transaction, create_transaction, ServerMessage, ServerMessagePacket, get_account_response,
  get_accounts_response, get_transactions_response, get_transaction_response,
  create_transaction_response, server_to_json,
}
use capycoin.Core.{AppError, Fresh, handler}
use capycoin.Core.Answers.{Answers, Answers_keep}
use capycoin.Core.Handler.{Serves, handler-Serves}
use capycoin.Core.Reach.{Reach, empty, begin, handle, stop, Reach-Keeps}
use capycoin.Core.Start.Keeps.{start_keeps}

-- The ledger that an answer leaves.
Answers-IsEntered :
    (engine : Engine) (fresh : Fresh) (before : Database) (m : ClientMessage) (resp : ServerMessage)
    (after : Database)
    → IsConsistent before
    → IsEntered before.transactions
    → Answers engine fresh before m resp after
    → IsEntered after.transactions
unfolding new_transaction
Answers-IsEntered engine fresh before m resp after ready entered =
    Answers_keep engine fresh before (λ d. IsEntered d.transactions) entered
      (λ after i. subst IsEntered (sym i.kept) entered)
      (λ sender_id receiver_id amount receipt after saved. Saved-IsEntered ready refl saved entered)
      m resp after

with_transactions-IsEntered :
    (d : Database) → IsEntered d.transactions → IsEntered (with_transactions d).transactions
with_transactions-IsEntered d h = elim (Option-cases d.transactions) [
  | inl missing ↦ rw missing (Each-nil is_entry)
  | inr (txs, present) ↦ rw present (subst IsEntered present h)
]

with_accounts-IsEntered :
    (d : Database) → IsEntered d.transactions → IsEntered (with_accounts d).transactions
with_accounts-IsEntered d h = elim (Option-cases d.accounts) [
  | inl missing ↦ rw missing h
  | inr (rows, present) ↦ rw present h
]

module _ (engine : Engine) (debug_sql : SqlError → String) (json : Json) where
  Serves-IsEntered :
      (fresh : Fresh) (msg : List ℕ) (before : Database)
      (r : Outcome AppError (Option (List ℕ)) × Conn Database)
      → IsConsistent before
      → IsEntered before.transactions
      → Serves json engine fresh msg before r
      → IsEntered r.1.db.transactions
  Serves-IsEntered fresh msg before (ok (some bytes), c) ready entered (s, _) =
      Answers-IsEntered engine fresh before s.packet.message s.resp.message c.db ready entered
        s.answers
  Serves-IsEntered fresh msg before (ok none, c) ready entered (same, _) =
      subst (λ d. IsEntered d.transactions) (sym same) entered
  Serves-IsEntered fresh msg before (err e, c) ready entered (same, _, _) =
      subst (λ d. IsEntered d.transactions) (sym same) entered
  Serves-IsEntered fresh msg before (panic, c) ready entered (s, _) =
      Answers-IsEntered engine fresh before s.packet.message s.resp.message c.db ready entered
        s.answers

-- In every database that the processes come to from an empty file, whatever calls fail and whatever
-- bytes are received, when no id that is drawn is the seed account's, each entry of the ledger is an
-- amount of 1 to 100000 without a fee that went from one account to another one.
pub Reach-IsEntered :
    (engine : Engine) (debug_sql : SqlError → String) (json : Json) (running : Bool) (d : Database)
    → Reach engine debug_sql json running d
    → IsEntered d.transactions
Reach-IsEntered engine debug_sql json _ d (empty accounts ledger) = rw ledger tt
Reach-IsEntered engine debug_sql json _ d (begin now c r is_running is_d) =
    subst (λ e. IsEntered e.transactions) is_d
      (start_keeps engine now (λ e. IsEntered e.transactions) with_accounts-IsEntered
        with_transactions-IsEntered (λ e e' h i. subst IsEntered (sym i.kept) h) c
        (Reach-IsEntered engine debug_sql json _ c.db r))
Reach-IsEntered engine debug_sql json _ d (handle fresh msg c r ne is_running is_d) =
    let ready = Reach-Keeps engine debug_sql json true c.db r in
    subst (λ e. IsEntered e.transactions) is_d
      (Serves-IsEntered engine debug_sql json fresh msg c.db
        (handler engine debug_sql json fresh msg c) ready
        (Reach-IsEntered engine debug_sql json _ c.db r)
        (handler-Serves engine debug_sql json fresh msg c ready ne))
Reach-IsEntered engine debug_sql json _ d (stop r) = Reach-IsEntered engine debug_sql json _ d r

-- Each number of a response passes a test.
abbrev pub Numbers : (ℤ → Bool) → ServerMessage → Type 0
Numbers p (get_account_response (Result.ok a)) = p a.funds ≡ true
Numbers p (get_accounts_response (Result.ok accounts)) = Each (λ (a : Account). p a.funds) accounts
Numbers p (get_transactions_response (Result.ok txs)) =
    Each (λ (t : Transaction). p t.amount && p t.fee) txs
Numbers p (get_transaction_response (Result.ok t)) = (p t.amount && p t.fee) ≡ true
Numbers p (create_transaction_response (Result.ok receipt)) =
    (p receipt.sender_account_funds && p receipt.fee) ≡ true
Numbers p _ = Unit

entry_numbers :
    (t : Transaction) → is_entry t ≡ true → (in_supply t.amount && in_supply t.fee) ≡ true
entry_numbers t h = ground arith

Answers-Numbers :
    (engine : Engine) (fresh : Fresh) (before : Database) (m : ClientMessage) (resp : ServerMessage)
    (after : Database)
    → IsConsistent before
    → IsEntered before.transactions
    → Answers engine fresh before m resp after
    → Numbers in_supply resp
unfolding new_transaction
Answers-Numbers engine fresh before create_new_account resp after ready entered (r, is_r, h) =
    rw is_r tt
Answers-Numbers engine fresh before (get_account id) resp after ready entered
      (Result.err e, is_r, h) =
    rw is_r tt
Answers-Numbers engine fresh before (get_account id) resp after ready entered
      (Result.ok a, is_r, (_, (rows, present, found))) =
    rw is_r (find_account-is_stocked id ready rows (row_of a) present found)
Answers-Numbers engine fresh before get_accounts resp after ready entered (Result.err e, is_r, h) =
    rw is_r tt
Answers-Numbers engine fresh before get_accounts resp after ready entered
      (Result.ok res, is_r, (_, (rows, present, same))) =
    let are : ready.rows ≡ rows = cc (ready.is_accounts, present) in
    rw is_r (
      Each-map is_stocked row_of res (
        Each-Perm is_stocked (map row_of res) rows same
          (subst (Each is_stocked) are (IsConsistent-Each ready))))
Answers-Numbers engine fresh before (get_transactions id s e) resp after ready entered
      (Result.err e', is_r, h) =
    rw is_r tt
Answers-Numbers engine fresh before (get_transactions id s e) resp after ready entered
      (Result.ok res, is_r, (_, (txs, present, same))) =
    rw is_r (λ t m. entry_numbers t (
      Each-Perm is_entry res _ same (Each-filter is_entry _ txs (subst IsEntered present entered)) t
        m))
Answers-Numbers engine fresh before (get_transaction id tid) resp after ready entered
      (Result.err e, is_r, h) =
    rw is_r tt
Answers-Numbers engine fresh before (get_transaction id tid) resp after ready entered
      (Result.ok t, is_r, (_, (txs, present, found), _)) =
    rw is_r
      (entry_numbers t (subst IsEntered present entered t (find_transaction-Mem tid txs t found)))
Answers-Numbers engine fresh before (create_transaction s r amount) resp after ready entered
      (Result.err e, is_r, h) =
    rw is_r tt
Answers-Numbers engine fresh before (create_transaction s r amount) resp after ready entered
      (Result.ok receipt, is_r, saved) =
    rw is_r (Saved-in_supply ready refl saved)

-- What the core sends is of Rust's types: in a database that the processes come to, a response that the
-- handling of a datagram gives was written from a packet in which each number, the funds, amounts and
-- fees, is between 0 and 100000, so that an `i64` holds it. The id that the call draws is not the seed
-- account's.
pub handler-Numbers :
    (engine : Engine) (debug_sql : SqlError → String) (json : Json) (fresh : Fresh) (msg : List ℕ)
    (c c' : Conn Database) (bytes : List ℕ)
    → Reach engine debug_sql json true c.db
    → fresh.id ≢ seed_account_id
    → handler engine debug_sql json fresh msg c ≡ (ok (some bytes), c')
    → (resp : ServerMessagePacket) × (server_to_json json resp ≡ some bytes)
      × Numbers in_supply resp.message
handler-Numbers engine debug_sql json fresh msg c c' bytes reached ne is_served =
    let ready = Reach-Keeps engine debug_sql json true c.db reached in
    let (s, written) : Serves json engine fresh msg c.db (ok (some bytes), c') =
      subst (Serves json engine fresh msg c.db) is_served
        (handler-Serves engine debug_sql json fresh msg c ready ne) in
    (
      s.resp,
      written,
      Answers-Numbers engine fresh c.db s.packet.message s.resp.message c'.db ready
          (Reach-IsEntered engine debug_sql json true c.db reached) s.answers,
    )
