-- ===== src/Tests/Core.antt =====
-- src/bin/core.rs on concrete datagrams.
use Prim.Native.String.{String}
use capycoin.Base.{ℕ, ◌≡◌, ◌≢◌, refl, true, false, none, some, List, [], ◌∷◌, arith, ap, inl}
use capycoin.Base.Int.{pos, ◌+ℤ◌, ◌-ℤ◌}
use capycoin.Base.Utf8.{from_utf8, is_utf8, is_utf8_from, advance}
use capycoin.Sqlite.{is_ok, SqlError, ok, panic, integer, sql_add, execute, Conn}
use capycoin.Database.{Database}
use capycoin.Account.{
  seed_account_id, create_seed_account, create_accounts_table, save_account, new_account,
}
use capycoin.Account.Table.{insert_account, update_funds}
use capycoin.Ledger.{
  create_ledger_table, save_transaction, transfer, post, deduct, add_i64, sub_i64,
  insert_transaction, new_transaction,
}
use capycoin.Ledger.Entries.{IsEntered, in_supply}
use capycoin.Core.Numbers.{Numbers, Reach-IsEntered, handler-Numbers}
use capycoin.Ledger.Consistent.{IsConsistent}
use capycoin.Message.{
  create_new_account, create_transaction, ClientMessagePacket, ServerMessagePacket, from_receipt,
  new_client_packet, client_to_json, client_from_json, server_to_json, as_resp_for, from_created,
}
use capycoin.Core.{AppError, Fresh, ignore_error, start, respond, message_dispatch, handler}
use capycoin.Core.Start.{IsStored, Leaves, start-Leaves}
use capycoin.Core.Answers.{Gives, Answers}
use capycoin.Core.Dispatch.{message_dispatch-Answers}
use capycoin.Core.Handler.{Serves, handler-Serves}
use capycoin.Core.Reach.{Reach, empty, begin, handle, is_alive, Reach-Keeps}
use capycoin.Core.Exchange.{Exchanges, handler-Exchanges}
use capycoin.Tests.Fixtures.{seed_row, alice_row, calm, busy, today, alice, seeded, two_accounts}
use capycoin.Tests.Ready.{seeded-IsConsistent, two_accounts-IsConsistent}
use capycoin.Tests.Codec.{codec, strokes}

abbrev pub debug_sql : SqlError → String
debug_sql e = "error"

abbrev pub fresh : Fresh
fresh = record { id = alice; made = today; now = 2 }

pub fresh_ne_seed : alice ≢ seed_account_id
fresh_ne_seed e = omega arith

abbrev no_file : Conn Database
no_file = record { db = record { accounts = none; transactions = none }; calls = 0 }

abbrev pub request : List ℕ
request = b'n' ∷ strokes 3 []

-- `main` comes to its loop with the two tables and the seed account.
started : start calm today no_file ≡ (ok tt, record seeded { calls = 16 })
unfolding execute start create_accounts_table create_ledger_table ignore_error save_account
    insert_account create_seed_account
started = refl

-- A request for a new account adds it, and is answered under its id.
pub request_served :
    handler calm debug_sql codec fresh request seeded
    ≡ (ok (some (strokes 3 (strokes alice (strokes 2 [])))), two_accounts)
unfolding execute handler message_dispatch respond save_account insert_account new_account
    from_created as_resp_for client_from_json server_to_json from_utf8 is_utf8 is_utf8_from advance
request_served = refl

start-Leaves_example : Leaves IsStored IsConsistent (start busy today no_file)
start-Leaves_example = start-Leaves busy today no_file (inl (refl, refl))

abbrev pub pay_packet : ClientMessagePacket
pay_packet = record {
  v = pos 1;
  message_id = 3;
  message = create_transaction seed_account_id alice (pos 250);
}

message_dispatch-Answers_example :
    Gives
      (λ resp after.
        (resp.v ≡ pos 1)
        × (resp.message_id ≡ 3)
        × Answers calm fresh two_accounts.db pay_packet.message resp.message after
        × IsConsistent after)
      (message_dispatch calm debug_sql {F = AppError} fresh pay_packet two_accounts)
message_dispatch-Answers_example =
    message_dispatch-Answers calm debug_sql fresh pay_packet two_accounts two_accounts-IsConsistent
      (omega arith, omega arith) fresh_ne_seed

handler-Serves_example :
    Serves codec calm fresh request seeded.db (handler calm debug_sql codec fresh request seeded)
handler-Serves_example =
    handler-Serves calm debug_sql codec fresh request seeded seeded-IsConsistent fresh_ne_seed

pub request_written : client_to_json codec (new_client_packet 3 create_new_account) ≡ some request
unfolding client_to_json new_client_packet
request_written = refl

handler-Exchanges_example :
    Exchanges calm codec fresh 3 create_new_account seeded.db
      (handler calm debug_sql codec fresh request seeded)
handler-Exchanges_example =
    handler-Exchanges calm debug_sql codec fresh 3 create_new_account request seeded
      seeded-IsConsistent fresh_ne_seed request_written

-- A file is made, a process starts on it and serves a request.
pub request_reached : Reach calm debug_sql codec true two_accounts.db
request_reached =
    handle fresh request seeded
      (begin today no_file (empty refl refl) (ap is_ok started) (ap (λ r. r.1.db) started))
      fresh_ne_seed (ap is_alive request_served) (ap (λ r. r.1.db) request_served)

Reach-Keeps_example : IsConsistent two_accounts.db
Reach-Keeps_example = Reach-Keeps calm debug_sql codec true two_accounts.db request_reached

-- A payment is made, though the text form of `Codec` cannot tell the client.
abbrev paid_untold : Conn Database
paid_untold = record {
  db = record {
    accounts = some (
        record seed_row { funds = integer (pos 99950) }
        ∷ record alice_row { funds = integer (pos 50) }
        ∷ []);
    transactions = some (
        record {
          transaction_id = 7;
          timestamp = 2;
          sender_account_id = seed_account_id;
          receiver_account_id = alice;
          amount = pos 50;
          fee = pos 0;
        }
        ∷ []);
  };
  calls = 12;
}

pay_served :
    handler calm debug_sql codec fresh (b'$' ∷ strokes 3 []) two_accounts ≡ (panic, paid_untold)
unfolding execute handler message_dispatch respond save_transaction transfer post deduct add_i64
    sub_i64 ◌+ℤ◌ ◌-ℤ◌ update_funds sql_add insert_transaction new_transaction from_receipt
    as_resp_for client_from_json server_to_json from_utf8 is_utf8 is_utf8_from advance
pay_served = refl

Reach-IsEntered_example : IsEntered paid_untold.db.transactions
Reach-IsEntered_example = Reach-IsEntered calm debug_sql codec false paid_untold.db (
    handle fresh (b'$' ∷ strokes 3 []) two_accounts request_reached fresh_ne_seed
      (ap is_alive pay_served) (ap (λ r. r.1.db) pay_served))

handler-Numbers_example :
    (resp : ServerMessagePacket) × (server_to_json codec resp
      ≡ some (strokes 3 (strokes alice (strokes 2 []))))
    × Numbers in_supply resp.message
handler-Numbers_example =
    handler-Numbers calm debug_sql codec fresh request seeded two_accounts
      (strokes 3 (strokes alice (strokes 2 [])))
      (begin today no_file (empty refl refl) (ap is_ok started) (ap (λ r. r.1.db) started))
      fresh_ne_seed request_served
