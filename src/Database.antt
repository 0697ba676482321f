-- ===== src/Database.antt =====
-- The core's database, `capycoin.db3`: the rows of its two tables, and the identifiers and instants
-- in them. A `Uuid` is its 128-bit number and is only compared; it is stored as a blob of 16 bytes,
-- so the CHECKs on its length always hold. An `OffsetDateTime` is its instant in nanoseconds, from
-- the start of the year -9999.
use capycoin.Base.{ℕ, ◌*◌, ◌^◌}
use capycoin.Base.Int.{ℤ}
use capycoin.Sqlite.{Cell, Table}

abbrev pub Uuid : Type 0
Uuid = ℕ

abbrev pub Time : Type 0
Time = ℕ

-- `Duration::days(1)`
abbrev pub day : Time
day = 86400 * 10 ^ 9

-- A row of `accounts`.
pub record AccountRow : Type 0 where
  pub account_id : Uuid
  pub created : Time
  pub funds : Cell

-- `ledger::Transaction`, which is also a row of `transactions`: the stored amount and fee are never
-- computed with, so they stay the integers that were inserted.
pub record Transaction : Type 0 where
  pub transaction_id : Uuid
  pub timestamp : Time
  pub sender_account_id : Uuid
  pub receiver_account_id : Uuid
  pub amount : ℤ
  pub fee : ℤ

pub record Database : Type 0 where
  pub accounts : Table AccountRow
  pub transactions : Table Transaction
