-- ===== src/Tests/Account.antt =====
-- src/account.rs on the tables of `Fixtures`.
use capycoin.Base.{◌≢◌, ◌≡◌, refl, [], ◌∷◌}
use capycoin.Sqlite.{ok, err, execute}
use capycoin.Sqlite.Laws.{Settles}
use capycoin.Account.{
  account_already_exists, create_seed_account, seed_account_id, save_account, load_account,
}
use capycoin.Account.Table.{insert_account}
use capycoin.Account.Save.{
  Inserted, save_account-Settles, save_account_sound, load_account-save_account,
}
use capycoin.Database.{Uuid}
use capycoin.Tests.Fixtures.{
  calm, calm-IsQuiet, busy, today, alice, alice_account, alice_row, seed_row, new_tables, seeded,
  two_accounts,
}

-- Saving the seed account gives its row.
seed_saved :
    save_account calm today create_seed_account new_tables
    ≡ (ok (record { account_id = seed_account_id; timestamp = today }), seeded)
unfolding execute save_account insert_account create_seed_account
seed_saved = refl

pub alice_saved :
    save_account calm today alice_account seeded
    ≡ (ok (record { account_id = alice; timestamp = today }), two_accounts)
unfolding execute save_account insert_account
alice_saved = refl

-- An account that is there is not saved again.
alice_refused : (save_account calm today alice_account two_accounts).0 ≡ err account_already_exists
unfolding execute save_account insert_account
alice_refused = refl

-- A commit that fails leaves the table as it was.
alice_rolled_back : (save_account busy today alice_account seeded).1.db ≡ seeded.db
unfolding execute save_account insert_account
alice_rolled_back = refl

save_account-Settles_example :
    Settles seeded.db
      (λ res after.
        (res ≡ record { account_id = alice; timestamp = today })
        × Inserted alice_account seeded.db after)
      (save_account calm today alice_account seeded)
save_account-Settles_example = save_account-Settles calm today alice_account seeded

save_account_sound_example :
    (save_account calm today alice_account two_accounts).0 ≡ err account_already_exists
save_account_sound_example =
    save_account_sound calm today alice_account two_accounts (seed_row ∷ alice_row ∷ [])
      calm-IsQuiet refl

load_account-save_account_example :
    ((load_account calm alice two_accounts).0 ≡ ok alice_account)
    × ((id : Uuid)
        → id ≢ alice
        → (load_account calm id two_accounts).0
          ≡ (load_account calm id (record seeded { calls = two_accounts.calls })).0)
load_account-save_account_example =
    load_account-save_account calm today alice_account seeded two_accounts alice_saved refl
