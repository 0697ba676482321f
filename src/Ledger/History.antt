-- ===== src/Ledger/History.antt =====
-- The accounts against the ledger (src/ledger.rs): what the transactions that are logged add to and
-- take from an account.
use capycoin.Base.{
  ◌≡◌, refl, ◌≢◌, none, List, [], ◌∷◌, ◌++◌, ◌==◌, if◌then◌else◌, ◌∙◌, ap, ==_ne, All,
}
use capycoin.Base.Int.{ℤ, pos, ◌+ℤ◌, ◌-ℤ◌, int_laws, parts_of_eq}
use capycoin.Database.{Uuid, AccountRow, Transaction}
use capycoin.Account.Table.{find_account}

-- What a transaction brings to an account: the amount, if it is the receiver, less the amount and
-- the fee, if it is the sender.
unfoldable pub flow : Uuid → Transaction → ℤ
flow id t =
    (if t.receiver_account_id == id then t.amount else pos 0)
    -ℤ (if t.sender_account_id == id then t.amount +ℤ t.fee else pos 0)

unfoldable pub history : Uuid → List Transaction → ℤ
history id [] = pos 0
history id (t ∷ txs) = flow id t +ℤ history id txs

pub history-append :
    (id : Uuid) (txs : List Transaction) (t : Transaction)
    → history id (txs ++ t ∷ []) ≡ history id txs +ℤ flow id t
unfolding history
history-append id [] t = omega int_laws
history-append id (u ∷ txs) t = omega (int_laws, parts_of_eq (history-append id txs t))

-- Both parties of a transaction have an account.
abbrev pub IsKnown : List AccountRow → Transaction → Type 0
IsKnown rows t =
    (find_account t.sender_account_id rows ≢ none)
    × (find_account t.receiver_account_id rows ≢ none)

-- An account that does not exist has no history.
pub history_unknown :
    (id : Uuid) (rows : List AccountRow) (txs : List Transaction)
    → All (IsKnown rows) txs
    → find_account id rows ≡ none
    → history id txs ≡ pos 0
unfolding history flow
history_unknown id rows [] known e = refl
history_unknown id rows (t ∷ txs) (k, known) e =
    let absent = λ (j : Uuid) (same : j ≡ id). ap (λ (i : Uuid). find_account i rows) same ∙ e in
    let not_sender = ==_ne t.sender_account_id id (λ same. k.0 (absent t.sender_account_id same)) in
    let not_receiver =
      ==_ne t.receiver_account_id id (λ same. k.1 (absent t.receiver_account_id same)) in
    rw (not_sender, not_receiver, history_unknown id rows txs known e) (omega int_laws)

-- The table of accounts may grow and change, as long as no account is lost.
pub All-IsKnown_mono :
    (rows rows' : List AccountRow) (txs : List Transaction)
    → ((id : Uuid) → find_account id rows ≢ none → find_account id rows' ≢ none)
    → All (IsKnown rows) txs
    → All (IsKnown rows') txs
All-IsKnown_mono rows rows' [] grows known = tt
All-IsKnown_mono rows rows' (t ∷ txs) grows ((s, r), known) = (
  (grows t.sender_account_id s, grows t.receiver_account_id r),
  All-IsKnown_mono rows rows' txs grows known,
)
