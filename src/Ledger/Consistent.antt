-- ===== src/Ledger/Consistent.antt =====
-- The invariant of the core's database: accounts (src/account.rs) and ledger (src/ledger.rs) agree.
use capycoin.Base.{
  ◌≡◌, ◌⊎◌, inl, inr, none, some, List, [], ◌∷◌, ◌++◌, arith, ◌==◌, if◌then◌else◌, is_some,
  Option-cases, ◌∙◌, sym, ap, All,
}
use capycoin.Base.Int.{ℤ, pos, ◌+ℤ◌, ◌≤ℤ◌, int_laws, IsI64}
use capycoin.Sqlite.{integer, Engine, Conn, ok}
use capycoin.Sqlite.Laws.{Settles-ok}
use capycoin.Database.{Uuid, Time, AccountRow, Transaction, Database}
use capycoin.Account.Table.{find_account}
use capycoin.Account.Sound.{
  IsSound, total, amount_of, append-IsSound, total-append, find_account-append,
}
use capycoin.Account.Save.{Inserted}
use capycoin.Account.{Account, row_of, seed_account_id, create_seed_account}
use capycoin.Ledger.{TransactionReceipt, save_transaction}
use capycoin.Ledger.Statements.{Holds}
use capycoin.Ledger.Transfer.{IsCapped, moved}
use capycoin.Ledger.Conserve.{Conserves, moved-Conserves}
use capycoin.Ledger.Save.{Saved, stamped, save_transaction-Settles}
use capycoin.Ledger.History.{history, IsKnown, history_unknown, All-IsKnown_mono}

-- The funds with which an account begins: the seed account has the whole coin.
unfoldable pub opening : Uuid → ℤ
unfolding create_seed_account
opening id = if id == seed_account_id then create_seed_account.funds else pos 0

-- The coin that has been brought into circulation.
unfoldable pub minted : List AccountRow → ℤ
unfolding create_seed_account
minted rows =
    if is_some (find_account seed_account_id rows) then create_seed_account.funds else pos 0

-- Both tables exist; the accounts are sound; every transaction names existing accounts; each account
-- holds what it began with and what the ledger's transactions brought it; and the funds of all
-- accounts together are the coin that was minted.
pub record IsConsistent (d : Database) : Type 0 where
  pub rows : List AccountRow
  pub txs : List Transaction
  pub is_accounts : d.accounts ≡ some rows
  pub is_ledger : d.transactions ≡ some txs
  pub sound : IsSound rows
  pub known : All (IsKnown rows) txs
  pub reconciled : (id : Uuid) (a : ℤ) → Holds id a rows → a ≡ opening id +ℤ history id txs
  pub closed : total rows ≡ minted rows

pub minted-le : (rows : List AccountRow) → minted rows ≤ℤ pos 100000
unfolding minted
minted-le rows = ground arith

pub IsConsistent-IsCapped : {d : Database} → IsConsistent d → IsCapped d
IsConsistent-IsCapped c = record {
  rows = c.rows;
  is_table = c.is_accounts;
  sound = c.sound;
  capped = rw c.closed (omega (arith, minted-le c.rows));
}

minted-append :
    (rows : List AccountRow) (r : AccountRow)
    → find_account r.account_id rows ≡ none
    → minted (rows ++ r ∷ []) ≡ minted rows +ℤ opening r.account_id
unfolding minted opening ◌+ℤ◌
minted-append rows r is_new = ground (arith, find_account-append seed_account_id rows r)

-- An account of the longer table is an old one or the new one.
Holds-append :
    (id : Uuid) (held : ℤ) (rows : List AccountRow) (r : AccountRow)
    → Holds id held (rows ++ r ∷ [])
    → Holds id held rows
      ⊎ ((find_account id rows ≡ none) × (r.account_id ≡ id) × (r.funds ≡ integer held))
Holds-append id held rows r h = elim (Option-cases (find_account id rows)) [
  | inr (old, found) ↦ inl (record {
    row = old;
    found = found;
    funds = ground (arith, find_account-append id rows r, h.found, h.funds);
  })
  | inl missing ↦ inr (
    missing,
    ground (arith, find_account-append id rows r, h.found, h.funds),
    ground (arith, find_account-append id rows r, h.found, h.funds),
  )
]

-- A new account keeps the invariant: one with no funds under another key than the seed's, or the
-- seed account itself.
pub Inserted-IsConsistent :
    (a : Account) {before after : Database}
    → Inserted a before after
    → a.funds ≡ opening a.account_id
    → IsConsistent before
    → IsConsistent after
Inserted-IsConsistent a {after} i funds c =
    let same : i.rows ≡ c.rows = cc (i.was, c.is_accounts) in
    let is_new : find_account a.account_id c.rows ≡ none = rw (← same) i.is_new in
    record {
      rows = c.rows ++ row_of a ∷ [];
      txs = c.txs;
      is_accounts = rw (← same) i.added;
      is_ledger = i.kept ∙ c.is_ledger;
      sound = append-IsSound c.rows (row_of a) c.sound is_new i.funded;
      known =
          All-IsKnown_mono c.rows (c.rows ++ row_of a ∷ []) c.txs
            (λ id was gone. ground (arith, find_account-append id c.rows (row_of a), was)) c.known;
      reconciled = λ id held h. elim (Holds-append id held c.rows (row_of a) h) [
        | inl old ↦ c.reconciled id held old
        | inr (missing, same_id, new_funds) ↦
            let begins : held ≡ opening a.account_id = ap amount_of (sym new_funds) ∙ funds in
            rw (history_unknown id c.rows c.txs c.known missing)
              (rw (← same_id) (begins ∙ omega int_laws))
      ];
      closed =
          total-append c.rows (row_of a)
          ∙ (ap (λ x. x +ℤ a.funds) c.closed
              ∙ (ap (λ x. minted c.rows +ℤ x) funds
                  ∙ sym (minted-append c.rows (row_of a) is_new)));
    }

-- What `Saved` says was done to sound accounts whose funds together fit an
-- `i64`: they are sound and together hold what they held, the sender is down by the amount, the
-- receiver up by it, and every other account is as it was.
pub Saved-Conserves :
    {now : Time} {t : Transaction} {receipt : TransactionReceipt} {before after : Database}
    (cap : IsCapped before) (saved : Saved now t receipt before after)
    → Conserves
        (stamped now t)
        saved.moves.held
        saved.moves.posted.rows
        (moved (stamped now t) saved.funds saved.moves.posted.rows)
Saved-Conserves {now} {t} cap saved =
    let p = saved.moves.posted in
    let same : cap.rows ≡ p.rows = cc (cap.is_table, p.was) in
    rw saved.moves.deducted (
      moved-Conserves (stamped now t) p.rows saved.moves.held (rw (← same) cap.sound)
        (rw (← same) cap.capped) saved.distinct saved.moves.sender_holds p.receiver_found
        (rw (← saved.moves.deducted) saved.moves.enough) saved.positive)

-- A successful `save_transaction` of an `i64` amount without a fee, on sound accounts whose funds
-- together fit an `i64`: the accounts are sound after it and together hold what they held, the sender is
-- down by the amount, the receiver up by it, and every other account is as it was.
pub save_transaction-Conserves :
    (engine : Engine) (now : Time) (t : Transaction) (c c' : Conn Database)
    {receipt : TransactionReceipt} (cap : IsCapped c.db)
    → IsI64 t.amount
    → t.fee ≡ pos 0
    → save_transaction engine now t c ≡ (ok receipt, c')
    → (held : ℤ) × (rows : List AccountRow) × (c'.db.accounts ≡ some rows)
      × Holds t.sender_account_id held cap.rows
      × Conserves t held cap.rows rows
save_transaction-Conserves engine now t c c' {receipt} cap i64 free run =
    let saved =
      Settles-ok c.db (λ receipt after. Saved now t receipt c.db after) _
        (save_transaction-Settles engine now t c cap i64 free) run in
    let p = saved.moves.posted in
    let same : p.rows ≡ cap.rows = cc (cap.is_table, p.was) in
    let cons = Saved-Conserves cap saved in
    rw (← same) (
      saved.moves.held,
      moved (stamped now t) saved.funds p.rows,
      p.accounts_after,
      saved.moves.sender_holds,
      record {
        sound = cons.sound;
        same_total = cons.same_total;
        sender = cons.sender;
        gain = cons.gain;
        same_accounts = cons.same_accounts;
        others = cons.others;
      },
    )
