-- ===== src/Suite/Account.antt =====
-- The tests of src/account.rs.
use capycoin.Base.{
  ℕ, zero, suc, ◌<◌, ◌≡◌, refl, Bool, true, false, Option, none, some, List, [], ◌∷◌, ◌==◌, ◌&&◌,
  not, ltb, length, filter, arith, ==_ne, ==_iff,
}
use capycoin.Base.Int.{pos, eqb_ℤ}
use capycoin.Sqlite.{ok, panic, ◌>>=◌, ◌>>◌, assert, execute}
use capycoin.Database.{Uuid, Time, AccountRow}
use capycoin.Account.{
  Account, AccountError, account_already_exists, account_does_not_exist, new_account,
  seed_account_id, seed_account_stamp, create_seed_account, create_accounts_table, save_account,
  load_account, get_accounts,
}
use capycoin.Account.Table.{insert_account}
use capycoin.Suite.{memory, Test, unwrap, expect_err, count_table, Passes, reads}

-- `#[derive(PartialEq)]`, as far as the tests compare.
abbrev pub same_account : Account → Account → Bool
same_account a b =
    (a.account_id == b.account_id) && ((a.created == b.created) && eqb_ℤ a.funds b.funds)

abbrev pub already_exists : AccountError → Bool
already_exists account_already_exists = true
already_exists _ = false

abbrev pub does_not_exist : AccountError → Bool
does_not_exist account_does_not_exist = true
does_not_exist _ = false

-- `select count(*) from accounts where account_id=(?)`
abbrev pub count_account : Uuid → Option (List AccountRow) → ℕ
count_account id none = 0
count_account id (some rows) = length (filter (λ r. r.account_id == id) rows)

-- `accts[i]`, which panics past the end.
abbrev pub at : ℕ → List Account → Test Account
at i [] c = (panic, c)
at zero (a ∷ accts) c = (ok a, c)
at (suc i) (a ∷ accts) c = at i accts c

-- The ids and the times that the calls of a test draw, in their order.
module _ (ids : ℕ → Uuid) (clock : ℕ → Time) where
  unfoldable pub test_new_account : Test (Unit {0})
  test_new_account =
      let a1 = new_account (ids 0) (clock 0) in
      let a2 = new_account (ids 1) (clock 1) in
      do
        assert (not (a1.account_id == a2.account_id))
        assert (not (a1.created == a2.created))
        assert (eqb_ℤ a1.funds (pos 0))

  unfoldable pub test_create_accounts_table : Test (Unit {0})
  test_create_accounts_table = do
    unwrap (create_accounts_table memory)
    n ← reads (λ d. count_table d.accounts)
    assert (n == 1)

  unfoldable pub test_create_seed_account : Test (Unit {0})
  test_create_seed_account = do
    assert (create_seed_account.account_id == seed_account_id)
    assert (create_seed_account.created == seed_account_stamp)
    assert (eqb_ℤ create_seed_account.funds (pos 100000))

  unfoldable pub test_save_account : Test (Unit {0})
  test_save_account =
      let a = new_account (ids 0) (clock 0) in
      do
        unwrap (create_accounts_table memory)
        created ← unwrap (save_account memory (clock 1) a)
        assert (created.account_id == a.account_id)
        assert (ltb a.created created.timestamp)
        n ← reads (λ d. count_account a.account_id d.accounts)
        assert (n == 1)

  unfoldable pub test_save_account_account_already_exists : Test (Unit {0})
  test_save_account_account_already_exists =
      let a = new_account (ids 0) (clock 0) in
      do
        unwrap (create_accounts_table memory)
        unwrap (save_account memory (clock 1) a)
        e ← expect_err (save_account memory (clock 2) a)
        assert (already_exists e)

  unfoldable pub test_load_account : Test (Unit {0})
  test_load_account =
      let a = new_account (ids 0) (clock 0) in
      do
        unwrap (create_accounts_table memory)
        unwrap (save_account memory (clock 1) a)
        b ← unwrap (load_account memory a.account_id)
        assert (same_account a b)

  unfoldable pub test_load_account_does_not_exist : Test (Unit {0})
  test_load_account_does_not_exist = do
    unwrap (create_accounts_table memory)
    e ← expect_err (load_account memory (ids 0))
    assert (does_not_exist e)

  unfoldable pub test_get_accounts_none : Test (Unit {0})
  test_get_accounts_none = do
    unwrap (create_accounts_table memory)
    accts ← unwrap (get_accounts memory)
    assert (length accts == 0)

  unfoldable pub test_get_accounts : Test (Unit {0})
  test_get_accounts =
      let a1 = new_account (ids 0) (clock 0) in
      let a2 = new_account (ids 1) (clock 2) in
      do
        unwrap (create_accounts_table memory)
        unwrap (save_account memory (clock 1) a1)
        unwrap (save_account memory (clock 3) a2)
        accts ← unwrap (get_accounts memory)
        assert (length accts == 2)
        first ← at 0 accts
        assert (same_account a1 first)
        second ← at 1 accts
        assert (same_account a2 second)

  module _ (distinct : (i j : ℕ) → ids i ≡ ids j → i ≡ j)
      (ticks : (i j : ℕ) → i < j → clock i < clock j) where
    self : (i : ℕ) → (ids i == ids i) ≡ true
    self i = (==_iff (ids i) (ids i)).1 refl

    different : (ids 0 == ids 1) ≡ false
    different = ==_ne (ids 0) (ids 1) (λ e. let no = distinct 0 1 e in omega arith)

    test_new_account-Passes : Passes test_new_account
    unfolding execute test_new_account new_account
    test_new_account-Passes = (tt, ground (arith, different, ticks 0 1 (omega arith)))

    test_create_accounts_table-Passes : Passes test_create_accounts_table
    unfolding execute test_create_accounts_table create_accounts_table unwrap
    test_create_accounts_table-Passes = (tt, refl)

    test_save_account-Passes : Passes test_save_account
    unfolding execute test_save_account create_accounts_table save_account insert_account
        new_account unwrap
    test_save_account-Passes = (tt, ground (arith, self 0, ticks 0 1 (omega arith)))

    test_save_account_account_already_exists-Passes :
        Passes test_save_account_account_already_exists
    unfolding execute test_save_account_account_already_exists create_accounts_table save_account
        insert_account new_account unwrap expect_err
    test_save_account_account_already_exists-Passes = (tt, ground (arith, self 0))

    test_get_accounts-Passes : Passes test_get_accounts
    unfolding execute test_get_accounts create_accounts_table save_account insert_account
        new_account get_accounts unwrap
    test_get_accounts-Passes = (tt, ground (arith, self 0, self 1, different))

    test_create_seed_account-Passes : Passes test_create_seed_account
    unfolding execute test_create_seed_account create_seed_account
    test_create_seed_account-Passes = (tt, refl)

    test_load_account-Passes : Passes test_load_account
    unfolding execute test_load_account create_accounts_table save_account insert_account
        new_account load_account unwrap
    test_load_account-Passes = (tt, ground (arith, self 0))

    test_load_account_does_not_exist-Passes : Passes test_load_account_does_not_exist
    unfolding execute test_load_account_does_not_exist create_accounts_table load_account unwrap
        expect_err
    test_load_account_does_not_exist-Passes = (tt, refl)

    test_get_accounts_none-Passes : Passes test_get_accounts_none
    unfolding execute test_get_accounts_none create_accounts_table get_accounts unwrap
    test_get_accounts_none-Passes = (tt, refl)

-- Every test passes.
abbrev pub AccountSuite : (ℕ → Uuid) → (ℕ → Time) → Type 0
AccountSuite ids clock =
    Passes (test_new_account ids clock)
    × Passes (test_create_accounts_table ids clock)
    × Passes (test_create_seed_account ids clock)
    × Passes (test_save_account ids clock)
    × Passes (test_save_account_account_already_exists ids clock)
    × Passes (test_load_account ids clock)
    × Passes (test_load_account_does_not_exist ids clock)
    × Passes (test_get_accounts_none ids clock)
    × Passes (test_get_accounts ids clock)

-- Each test of src/account.rs passes, whatever distinct ids are drawn and at whatever increasing times.
pub account_tests-Pass :
    (ids : ℕ → Uuid) (clock : ℕ → Time)
    → ((i j : ℕ) → ids i ≡ ids j → i ≡ j)
    → ((i j : ℕ) → i < j → clock i < clock j)
    → AccountSuite ids clock
account_tests-Pass ids clock distinct ticks = (
  test_new_account-Passes ids clock distinct ticks,
  test_create_accounts_table-Passes ids clock distinct ticks,
  test_create_seed_account-Passes ids clock distinct ticks,
  test_save_account-Passes ids clock distinct ticks,
  test_save_account_account_already_exists-Passes ids clock distinct ticks,
  test_load_account-Passes ids clock distinct ticks,
  test_load_account_does_not_exist-Passes ids clock distinct ticks,
  test_get_accounts_none-Passes ids clock distinct ticks,
  test_get_accounts-Passes ids clock distinct ticks,
)
