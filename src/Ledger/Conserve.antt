-- ===== src/Ledger/Conserve.antt =====
-- The two updates of `save_transaction` (src/ledger.rs) move funds and make none.
use mathlib.Core.Path.{subst}
use capycoin.Base.{◌≡◌, refl, ◌≢◌, some, List, arith, is_some, ◌∙◌, sym, ap}
use capycoin.Base.Int.{ℤ, pos, ◌+ℤ◌, ◌-ℤ◌, ◌≤ℤ◌, int_laws, parts_of_eq, i64_max}
use capycoin.Sqlite.{Cell, integer, real, sql_add}
use capycoin.Database.{Uuid, AccountRow, Transaction}
use capycoin.Account.Table.{find_account, set_funds}
use capycoin.Account.Sound.{
  IsSound, IsFunded, total, amount_of, amount_of-le-total, find_account-IsFunded, set_funds-IsSound,
  is_some-set_funds, total-set_funds, find_account-set_funds_self, find_account-set_funds_ne,
}
use capycoin.Ledger.Statements.{Holds}
use capycoin.Ledger.Transfer.{moved}

pub IsFunded-integer : (c : Cell) → IsFunded c → c ≡ integer (amount_of c)
IsFunded-integer (integer a) h = refl
IsFunded-integer real h = absurd h

pub sql_add_ok :
    (a b : ℤ)
    → pos 0 ≤ℤ a
    → pos 1 ≤ℤ b
    → a +ℤ b ≤ℤ i64_max
    → sql_add (integer a) b ≡ integer (a +ℤ b)
unfolding sql_add
sql_add_ok a b h k m = let low : pos 0 ≤ℤ a +ℤ b = omega int_laws in ground arith

-- What a transfer owes to the accounts: nothing is lost or made, the sender is down by the amount,
-- the receiver up by it, and every other account is as it was.
pub record Conserves (t : Transaction) (held : ℤ) (rows rows' : List AccountRow) : Type 0 where
  pub sound : IsSound rows'
  pub same_total : total rows' ≡ total rows
  pub sender : Holds t.sender_account_id (held -ℤ t.amount) rows'
  pub gain :
      (had : ℤ)
      → Holds t.receiver_account_id had rows
      → Holds t.receiver_account_id (had +ℤ t.amount) rows'
  pub same_accounts : (id : Uuid) → is_some (find_account id rows') ≡ is_some (find_account id rows)
  pub others :
      (id : Uuid)
      → id ≢ t.sender_account_id
      → id ≢ t.receiver_account_id
      → find_account id rows' ≡ find_account id rows

-- An account holds one amount.
pub Holds-unique :
    (id : Uuid) (a b : ℤ) (rows : List AccountRow) → Holds id a rows → Holds id b rows → a ≡ b
Holds-unique id a b rows h k =
    let same : h.row ≡ k.row = cc (h.found, k.found) in
    ap amount_of (sym h.funds ∙ (ap (λ (row : AccountRow). row.funds) same ∙ k.funds))

-- A row of sound accounts holds an amount.
pub Holds-of_found :
    (id : Uuid) (rows : List AccountRow) {row : AccountRow}
    → IsSound rows
    → find_account id rows ≡ some row
    → Holds id (amount_of row.funds) rows
Holds-of_found id rows {row} sound found = record {
  row = row;
  found = found;
  funds = IsFunded-integer row.funds (find_account-IsFunded id rows sound found);
}

module _ (t : Transaction) (rows : List AccountRow) (held : ℤ) {receiver : AccountRow}
    (sound : IsSound rows) (capped : total rows ≤ℤ i64_max)
    (ne : t.sender_account_id ≢ t.receiver_account_id) (holds : Holds t.sender_account_id held rows)
    (found : find_account t.receiver_account_id rows ≡ some receiver)
    (enough : pos 0 ≤ℤ held -ℤ t.amount) (positive : pos 1 ≤ℤ t.amount) where
  abbrev debit : Cell → Cell
  debit _ = integer (held -ℤ t.amount)

  abbrev credit : Cell → Cell
  credit c = sql_add c t.amount

  abbrev debited : List AccountRow
  debited = set_funds debit t.sender_account_id rows

  debited-IsSound : IsSound debited
  debited-IsSound = set_funds-IsSound debit t.sender_account_id rows sound holds.found enough

  total-debited : total debited +ℤ t.amount ≡ total rows
  total-debited =
      let sums = total-set_funds debit t.sender_account_id rows sound holds.found in
      omega (int_laws, parts_of_eq (rw holds.funds at sums))

  receiver_debited : find_account t.receiver_account_id debited ≡ some receiver
  receiver_debited =
      find_account-set_funds_ne debit t.sender_account_id t.receiver_account_id rows
        (λ e. ne (sym e))
      ∙ found

  credited : credit receiver.funds ≡ integer (amount_of receiver.funds +ℤ t.amount)
  credited =
      let funded = find_account-IsFunded t.receiver_account_id rows sound found in
      let cell = IsFunded-integer receiver.funds funded in
      let v = amount_of receiver.funds in
      let bound =
        amount_of-le-total t.receiver_account_id debited debited-IsSound receiver_debited in
      let not_negative : pos 0 ≤ℤ v = subst IsFunded cell funded in
      let fits : v +ℤ t.amount ≤ℤ i64_max = omega (int_laws, bound, parts_of_eq total-debited) in
      ap credit cell ∙ sql_add_ok v t.amount not_negative positive fits

  pub moved-Conserves : Conserves t held rows (moved t (held -ℤ t.amount) rows)
  moved-Conserves =
      let r = t.receiver_account_id in
      let s = t.sender_account_id in
      let v = amount_of receiver.funds in
      let funded = find_account-IsFunded r rows sound found in
      let not_negative : pos 0 ≤ℤ v =
        subst IsFunded (IsFunded-integer receiver.funds funded) funded in
      let new_funded : IsFunded (credit receiver.funds) = rw credited (omega int_laws) in
      let sums = total-set_funds credit r debited debited-IsSound receiver_debited in
      let credited_row = find_account-set_funds_self credit r debited receiver_debited in
      record {
        sound = set_funds-IsSound credit r debited debited-IsSound receiver_debited new_funded;
        same_total = omega (int_laws, parts_of_eq (rw credited at sums), parts_of_eq total-debited);
        sender = record {
          row = record (holds.row) { funds = debit holds.row.funds };
          found =
              find_account-set_funds_ne credit r s debited ne
              ∙ find_account-set_funds_self debit s rows holds.found;
          funds = refl;
        };
        gain = λ had h.
            let same_row : receiver ≡ h.row = cc (found, h.found) in
            let same : v ≡ had =
              ap (λ (row : AccountRow). amount_of row.funds) same_row ∙ ap amount_of h.funds in
            record {
              row = record receiver { funds = credit receiver.funds };
              found = credited_row;
              funds = credited ∙ ap (λ a. integer (a +ℤ t.amount)) same;
            };
        same_accounts =
            λ id. is_some-set_funds credit r id debited ∙ is_some-set_funds debit s id rows;
        others = λ id not_sender not_receiver.
            find_account-set_funds_ne credit r id debited not_receiver
            ∙ find_account-set_funds_ne debit s id rows not_sender;
      }
