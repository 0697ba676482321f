-- ===== src/Ledger/Query.antt =====
-- `get_transactions` and `get_transaction` of src/ledger.rs.
use mathlib.Core.List.{Mem, Perm}
use mathlib.Core.List.Perm
use mathlib.Core.Path.{ap₂, subst₂}
use capycoin.Base.{
  ◌≡◌, filter, mem-filter, refl, ◌≢◌, ◌⊎◌, ◌↔◌, inl, inr, true, some, List, [], ◌∷◌, arith,
  Option-cases, ◌∙◌, sym, Bool-cases, ap, map,
}
use capycoin.Sqlite.{SqlError, Engine, Conn, Outcome, ok, panic, fetch}
use capycoin.Sqlite.Laws.{Settles, Settles-mono, bind-Settles, Settles-ok}
use capycoin.Sqlite.Fetch.{
  statement-Settles, map_err-Settles, touch-Settles, fetch-Settles, read_table, read_table-ne-panic,
}
use capycoin.Database.{Uuid, Time, Transaction, Database}
use capycoin.Ledger.{
  sql_error, lookup_error, find_statement, is_party, selects, get_transactions, get_transaction,
  find_transaction,
}

map-ok_inj :
    {E A : Type 0} (xs ys : List A)
    → ◌≡◌ {A = List (Outcome E A)} (map (λ x. ok x) xs) (map (λ y. ok y) ys)
    → xs ≡ ys
map-ok_inj [] [] e = refl
map-ok_inj [] (y ∷ ys) e = cc
map-ok_inj (x ∷ xs) [] e = cc
map-ok_inj {E} (x ∷ xs) (y ∷ ys) e = ap₂ ◌∷◌ (cc) (map-ok_inj {E = E} xs ys (cc))

-- Whatever calls fail, `get_transactions` changes nothing, and when it succeeds it returns the rows
-- that its WHERE clause selects, each as often as it is in the ledger, in some order.
pub get_transactions-Settles :
    (engine : Engine) (id : Uuid) (begin_time end_time : Time) (c : Conn Database)
    → Settles c.db
        (λ res after.
          (after ≡ c.db)
          × ((txs : List Transaction) × (c.db.transactions ≡ some txs)
              × Perm res (filter (selects engine id begin_time end_time) txs)))
        (get_transactions engine id (begin_time, end_time) c)
unfolding get_transactions
get_transactions-Settles engine id begin_time end_time c =
    let chosen = selects engine id begin_time end_time in
    map_err-Settles c.db _ sql_error _ c (
      bind-Settles c.db (λ _ d. d ≡ c.db) _ _ _ (touch-Settles engine c.db c refl)
        (λ _ c₁ same₁.
          bind-Settles c.db
            (λ res d.
              (d ≡ c.db)
              × ((txs : List Transaction) × (c.db.transactions ≡ some txs)
                  × (res ≡ filter chosen txs)))
            _ _ _
            (statement-Settles c.db _ engine _ c₁ same₁
              (read_table-ne-panic (filter chosen) c₁.db c₁.db.transactions)
              (λ res d e.
                let (txs, present, is_filtered, kept) =
                  read_table (filter chosen) c₁.db c₁.db.transactions res d e in
                (
                  kept ∙ same₁,
                  (txs, ap (λ (d : Database). d.transactions) (sym same₁) ∙ present, is_filtered),
                )))
            (λ picked c₂ (same₂, (txs, present, is_filtered)).
              Settles-mono c.db _ _ (fetch engine _ (engine.scan Transaction picked) c₂)
                (λ res _ (kept, are). (
                  kept,
                  (
                    txs,
                    present,
                    subst₂ Perm (map-ok_inj {E = SqlError} (engine.scan Transaction picked) res are)
                        is_filtered (engine.scan_perm Transaction picked),
                  ),
                ))
                (fetch-Settles engine c.db _ (engine.scan Transaction picked) c₂ (λ t e. cc)
                  same₂))))

is_party_iff :
    (id : Uuid) (t : Transaction)
    → is_party id t ≡ true
    → (t.sender_account_id ≡ id) ⊎ (t.receiver_account_id ≡ id)
is_party_iff id t h = ground arith

selects_sound :
    (engine : Engine) (id : Uuid) (begin_time end_time : Time) (t : Transaction)
    → selects engine id begin_time end_time t ≡ true
    → ((t.sender_account_id ≡ id) ⊎ (t.receiver_account_id ≡ id))
      × (engine.time_le begin_time t.timestamp ≡ true)
      × (engine.time_le t.timestamp end_time ≡ true)
selects_sound engine id begin_time end_time t h = (ground arith, ground arith, ground arith)

selects_complete :
    (engine : Engine) (id : Uuid) (begin_time end_time : Time) (t : Transaction)
    → (t.sender_account_id ≡ id) ⊎ (t.receiver_account_id ≡ id)
    → engine.time_le begin_time t.timestamp ≡ true
    → engine.time_le t.timestamp end_time ≡ true
    → selects engine id begin_time end_time t ≡ true
selects_complete engine id begin_time end_time t party from to = ground arith

find_statement-ne-panic : (id : Uuid) (d : Database) → find_statement id d ≢ panic
find_statement-ne-panic id d h = ground arith

find_statement-found :
    (id : Uuid) (d : Database) (t : Transaction) (d' : Database)
    → find_statement id d ≡ ok (t, d')
    → (d' ≡ d)
      × ((txs : List Transaction) × (d.transactions ≡ some txs)
          × (find_transaction id txs ≡ some t))
find_statement-found id d t d' h = elim (Option-cases d.transactions) [
  | inl missing ↦ ground arith
  | inr (txs, present) ↦ (ground arith, (txs, present, ground arith))
]

-- A list that `get_transactions` returned, whatever the order in which the engine scans, holds exactly the
-- ledger's transactions of the account, as sender or as receiver, whose stored timestamp is not before that
-- of the first time and not after that of the last, in the order that the engine compares them in.
pub get_transactions_iff :
    (engine : Engine) (id : Uuid) (begin_time end_time : Time) (c c' : Conn Database)
    {res : List Transaction}
    → get_transactions engine id (begin_time, end_time) c ≡ (ok res, c')
    → (txs : List Transaction) × (c.db.transactions ≡ some txs)
      × ((t : Transaction)
          → Mem t res ↔ (
              Mem t txs
              × ((t.sender_account_id ≡ id) ⊎ (t.receiver_account_id ≡ id))
              × (engine.time_le begin_time t.timestamp ≡ true)
              × (engine.time_le t.timestamp end_time ≡ true)))
get_transactions_iff engine id begin_time end_time c c' {res} returned =
    let (same, (txs, present, perm)) =
      Settles-ok c.db _ _ (get_transactions-Settles engine id begin_time end_time c) returned in
    let chosen = selects engine id begin_time end_time in
    (
      txs,
      present,
      λ t. (
        λ m.
            let (in_txs, picked) = (mem-filter chosen t txs).0 ((Perm.mem_iff perm).0 m) in
            let (party, from, to) = selects_sound engine id begin_time end_time t picked in
            (in_txs, party, from, to),
        λ h. (Perm.mem_iff perm).1 (
            (mem-filter chosen t txs).1
              (h.0, selects_complete engine id begin_time end_time t h.1 h.2 h.3)),
      ),
    )

-- Whatever calls fail, `get_transaction` changes nothing, and gives a transaction only to an account
-- that is its sender or its receiver: the one that the ledger has under that key.
pub get_transaction-Settles :
    (engine : Engine) (account_id transaction_id : Uuid) (c : Conn Database)
    → Settles c.db
        (λ t after.
          (after ≡ c.db)
          × ((txs : List Transaction) × (c.db.transactions ≡ some txs)
              × (find_transaction transaction_id txs ≡ some t))
          × ((t.sender_account_id ≡ account_id) ⊎ (t.receiver_account_id ≡ account_id)))
        (get_transaction engine account_id transaction_id c)
unfolding get_transaction
get_transaction-Settles engine account_id transaction_id c =
    bind-Settles c.db
      (λ t d.
        (d ≡ c.db)
        × ((txs : List Transaction) × (c.db.transactions ≡ some txs)
            × (find_transaction transaction_id txs ≡ some t)))
      _ _ _
      (map_err-Settles c.db _ lookup_error _ c (
        statement-Settles c.db _ engine (find_statement transaction_id) c refl
          (find_statement-ne-panic transaction_id c.db) (find_statement-found transaction_id c.db)))
      (λ t c' found. elim (Bool-cases (is_party account_id t)) [
        | inl party ↦ rw party (found.0, found.1, is_party_iff account_id t party)
        | inr stranger ↦ rw stranger found.0
      ])
