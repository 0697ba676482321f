-- ===== src/Account/Sound.antt =====
-- The invariant of the rows of `accounts` (src/account.rs), the sum of their funds, and what the
-- statements do to both.
use capycoin.Base.{
  ◌≡◌, refl, ◌≢◌, true, none, some, List, [], ◌∷◌, ◌++◌, arith, ◌==◌, if◌then◌else◌, is_some,
}
use capycoin.Base.Int.{ℤ, pos, ◌+ℤ◌, ◌≤ℤ◌, int_laws}
use capycoin.Sqlite.{Cell, integer, real, is_nonneg, sql_add}
use capycoin.Database.{Uuid, AccountRow}
use capycoin.Account.Table.{find_account, set_funds, hits, checks}

-- An INTEGER that is not negative.
abbrev pub IsFunded : Cell → Type 0
IsFunded (integer a) = pos 0 ≤ℤ a
IsFunded real = ⊥

abbrev pub amount_of : Cell → ℤ
amount_of (integer a) = a
amount_of real = pos 0

pub amount_of_nonneg : (c : Cell) → IsFunded c → pos 0 ≤ℤ amount_of c
amount_of_nonneg (integer a) h = h
amount_of_nonneg real h = absurd h

-- An addition to a funded row passes the CHECK.
pub sql_add-is_nonneg :
    (c : Cell) (a : ℤ) → IsFunded c → pos 1 ≤ℤ a → is_nonneg (sql_add c a) ≡ true
unfolding sql_add ◌+ℤ◌
sql_add-is_nonneg (integer b) a h p = ground arith
sql_add-is_nonneg real a h p = absurd h

-- Every row is funded, and no key occurs twice.
abbrev pub IsSound : List AccountRow → Type 0
IsSound [] = Unit
IsSound (r ∷ rows) = IsFunded r.funds × (find_account r.account_id rows ≡ none) × IsSound rows

-- The coin in circulation.
unfoldable pub total : List AccountRow → ℤ
total [] = pos 0
total (r ∷ rows) = amount_of r.funds +ℤ total rows

pub total_nonneg : (rows : List AccountRow) → IsSound rows → pos 0 ≤ℤ total rows
unfolding total
total_nonneg [] h = omega arith
total_nonneg (r ∷ rows) h = grind (int_laws, total_nonneg rows h.2)

-- A row that is found is funded, and holds no more than there is.
pub find_account-IsFunded :
    (id : Uuid) (rows : List AccountRow) {r : AccountRow}
    → IsSound rows
    → find_account id rows ≡ some r
    → IsFunded r.funds
find_account-IsFunded id [] h e = cc
find_account-IsFunded id (q ∷ rows) {r} h e =
    ground (arith, find_account-IsFunded id rows {r = r} h.2)

pub amount_of-le-total :
    (id : Uuid) (rows : List AccountRow) {r : AccountRow}
    → IsSound rows
    → find_account id rows ≡ some r
    → amount_of r.funds ≤ℤ total rows
unfolding total
amount_of-le-total id [] h e = cc
amount_of-le-total id (q ∷ rows) {r} h e =
    grind (int_laws, amount_of-le-total id rows {r = r} h.2, total_nonneg rows h.2)

module _ (f : Cell → Cell) (id : Uuid) where
  pub find_account-set_funds_self :
      (rows : List AccountRow) {r : AccountRow}
      → find_account id rows ≡ some r
      → find_account id (set_funds f id rows) ≡ some (record r { funds = f r.funds })
  find_account-set_funds_self [] e = cc
  find_account-set_funds_self (q ∷ rows) {r} e =
      ground (arith, find_account-set_funds_self rows {r = r})

  pub find_account-set_funds_ne :
      (j : Uuid) (rows : List AccountRow)
      → j ≢ id
      → find_account j (set_funds f id rows) ≡ find_account j rows
  find_account-set_funds_ne j [] ne = refl
  find_account-set_funds_ne j (q ∷ rows) ne = ground (arith, find_account-set_funds_ne j rows)

  pub find_account-set_funds-none :
      (j : Uuid) (rows : List AccountRow)
      → find_account j rows ≡ none
      → find_account j (set_funds f id rows) ≡ none
  find_account-set_funds-none j [] e = refl
  find_account-set_funds-none j (q ∷ rows) e = ground (arith, find_account-set_funds-none j rows)

  pub is_some-set_funds :
      (j : Uuid) (rows : List AccountRow)
      → is_some (find_account j (set_funds f id rows)) ≡ is_some (find_account j rows)
  is_some-set_funds j [] = refl
  is_some-set_funds j (q ∷ rows) = ground (arith, is_some-set_funds j rows)

  pub set_funds_absent :
      (rows : List AccountRow) → find_account id rows ≡ none → set_funds f id rows ≡ rows
  set_funds_absent [] e = refl
  set_funds_absent (q ∷ rows) e = ground (arith, set_funds_absent rows)

  pub hits_absent : (rows : List AccountRow) → find_account id rows ≡ none → hits f id rows ≡ 0
  hits_absent [] e = refl
  hits_absent (q ∷ rows) e = ground (arith, hits_absent rows)

  pub hits_present :
      (rows : List AccountRow) {r : AccountRow} → find_account id rows ≡ some r → hits f id rows ≢ 0
  hits_present [] e = cc
  hits_present (q ∷ rows) {r} e = ground (arith, hits_present rows {r = r})

  pub checks_absent :
      (rows : List AccountRow) → find_account id rows ≡ none → checks f id rows ≡ true
  checks_absent [] e = refl
  checks_absent (q ∷ rows) e = ground (arith, checks_absent rows)

  -- The CHECK of the one row with the key decides.
  pub checks_present :
      (rows : List AccountRow) {r : AccountRow}
      → IsSound rows
      → find_account id rows ≡ some r
      → checks f id rows ≡ is_nonneg (f r.funds)
  checks_present [] h e = cc
  checks_present (q ∷ rows) {r} h e =
      ground (arith, checks_present rows {r = r} h.2, checks_absent rows)

  pub set_funds-IsSound :
      (rows : List AccountRow) {r : AccountRow}
      → IsSound rows
      → find_account id rows ≡ some r
      → IsFunded (f r.funds)
      → IsSound (set_funds f id rows)
  set_funds-IsSound [] h e k = tt
  set_funds-IsSound (q ∷ rows) {r} h e k = ground (
    arith,
    set_funds-IsSound rows {r = r} h.2,
    set_funds_absent rows,
    find_account-set_funds-none q.account_id rows h.1,
  )

  pub total-set_funds :
      (rows : List AccountRow) {r : AccountRow}
      → IsSound rows
      → find_account id rows ≡ some r
      → total (set_funds f id rows) +ℤ amount_of r.funds ≡ total rows +ℤ amount_of (f r.funds)
  unfolding total
  total-set_funds [] h e = cc
  total-set_funds (q ∷ rows) {r} h e =
      grind (int_laws, total-set_funds rows {r = r} h.2, set_funds_absent rows)

-- A new row at the end.
pub find_account-append :
    (j : Uuid) (rows : List AccountRow) (r : AccountRow)
    → find_account j (rows ++ r ∷ []) ≡ (
        if is_some (find_account j rows)
        then find_account j rows
        else if r.account_id == j
        then some r
        else none)
find_account-append j [] r = ground arith
find_account-append j (q ∷ rows) r = ground (arith, find_account-append j rows r)

pub append-IsSound :
    (rows : List AccountRow) (r : AccountRow)
    → IsSound rows
    → find_account r.account_id rows ≡ none
    → IsFunded r.funds
    → IsSound (rows ++ r ∷ [])
append-IsSound [] r h e k = (k, refl, tt)
append-IsSound (q ∷ rows) r h e k =
    ground (arith, append-IsSound rows r h.2, find_account-append q.account_id rows r)

pub total-append :
    (rows : List AccountRow) (r : AccountRow)
    → total (rows ++ r ∷ []) ≡ total rows +ℤ amount_of r.funds
unfolding total
total-append [] r = omega int_laws
total-append (q ∷ rows) r = grind (int_laws, total-append rows r)
