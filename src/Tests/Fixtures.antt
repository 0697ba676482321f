-- ===== src/Tests/Fixtures.antt =====
-- Concrete engines and databases.
use mathlib.Core.List.Perm
use mathlib.Core.Path.{subst}
use Prim.Native.String.{String}
use capycoin.Base.{
  ℕ, suc, ◌≡◌, refl, Bool, true, Option, none, some, List, [], ◌∷◌, leb, ◌==◌, if◌then◌else◌,
  length, ==_iff,
}
use capycoin.Base.Int.{pos}
use capycoin.Sqlite.{Engine, Conn, integer}
use capycoin.Sqlite.Quiet.{IsQuiet}
use capycoin.Database.{Uuid, Time, AccountRow, Transaction, Database}
use capycoin.Account.{seed_account_id, seed_account_stamp, Account}
use capycoin.Ledger.{TransactionReceipt}
use capycoin.Auth.{Bcrypt}

-- No call fails, rows come in their order, and stored timestamps are ordered as the instants are.
abbrev pub calm : Engine
calm = record {
  fault = λ _. none;
  scan = λ A rows. rows;
  scan_perm = λ A rows. Perm.refl rows;
  time_le = leb;
}

pub calm-IsQuiet : IsQuiet calm
calm-IsQuiet n = refl

-- The sixth call of a connection fails.
abbrev pub busy : Engine
busy = record {
  fault = λ n. if n == 5 then some 5 else none;
  scan = λ A rows. rows;
  scan_perm = λ A rows. Perm.refl rows;
  time_le = leb;
}

abbrev pub today : Time
today = seed_account_stamp

abbrev pub later : Time
later = suc today

abbrev pub alice : Uuid
alice = 7

abbrev pub alice_account : Account
alice_account = record { account_id = alice; created = today; funds = pos 0 }

abbrev pub seed_row : AccountRow
seed_row = record {
  account_id = seed_account_id;
  created = seed_account_stamp;
  funds = integer (pos 100000);
}

abbrev pub alice_row : AccountRow
alice_row = record { account_id = alice; created = today; funds = integer (pos 0) }

-- Two new tables, the seed account, and another account.
abbrev pub new_tables : Conn Database
new_tables = record { db = record { accounts = some []; transactions = some [] }; calls = 0 }

abbrev pub seeded : Conn Database
seeded = record {
  db = record { accounts = some (seed_row ∷ []); transactions = some [] };
  calls = 3;
}

abbrev pub two_accounts : Conn Database
two_accounts = record {
  db = record { accounts = some (seed_row ∷ alice_row ∷ []); transactions = some [] };
  calls = 6;
}

-- A payment of the seed account, as it is made and as it is stored a moment later.
abbrev pub payment : Transaction
payment = record {
  transaction_id = 11;
  timestamp = today;
  sender_account_id = seed_account_id;
  receiver_account_id = alice;
  amount = pos 250;
  fee = pos 0;
}

abbrev pub receipt : TransactionReceipt
receipt = record {
  transaction_id = 11;
  timestamp = later;
  sender_account_id = seed_account_id;
  receiver_account_id = alice;
  sender_account_funds = pos 99750;
  fee = pos 0;
}

abbrev pub paid : Conn Database
paid = record {
  db = record {
    accounts = some (
        record seed_row { funds = integer (pos 99750) }
        ∷ record alice_row { funds = integer (pos 250) }
        ∷ []);
    transactions = some (record payment { timestamp = later } ∷ []);
  };
  calls = 12;
}

-- A hash that keeps only the number of bytes.
abbrev pub marks : List ℕ → String
marks [] = ""
marks (b ∷ bytes) = String.◌∷◌ "x" (marks bytes)

abbrev pub size : String → ℕ
size String.[] = 0
size (String.◌∷◌ c s) = suc (size s)

pub size-marks : (bytes : List ℕ) → size (marks bytes) ≡ length bytes
size-marks [] = refl
size-marks (b ∷ bytes) = rw (size-marks bytes) refl

abbrev pub hash : List ℕ → ℕ → Option String
hash bytes salt = some (marks bytes)

abbrev pub verify : List ℕ → String → Option Bool
verify bytes h = some (size h == length bytes)

verify-marks : (bytes : List ℕ) → verify bytes (marks bytes) ≡ some true
verify-marks bytes = rw ((==_iff (size (marks bytes)) (length bytes)).1 (size-marks bytes)) refl

pub verify-hash :
    (bytes : List ℕ) (salt : ℕ) (h : String) → hash bytes salt ≡ some h → verify bytes h ≡ some true
verify-hash bytes salt h e =
    let same : marks bytes ≡ h = cc in
    subst (λ h. verify bytes h ≡ some true) same (verify-marks bytes)

abbrev pub counting : Bcrypt
counting = record { hash = hash; verify = verify; verifies = verify-hash }
