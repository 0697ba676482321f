-- ===== src/Ledger/RoundTrip.antt =====
-- A transaction that `save_transaction` saved, as `get_transaction` of src/ledger.rs shows it.
use capycoin.Database.{Database}
