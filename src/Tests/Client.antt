-- ===== src/Tests/Client.antt =====
-- src/client_util.rs against the core of `Tests.Core`.
use capycoin.Base.{arith, take, ℕ, ◌≡◌, refl, true, false, none, some, List, [], ◌∷◌}
use capycoin.Sqlite.{ok, execute, Conn}
use capycoin.Message.{ServerMessage, create_new_account, new_client_packet, client_to_json}
use capycoin.Client.{Address, Wire, bind_socket, remove_socket, exchange, send_and_recv_msg}
use capycoin.Core.Answers.{Answers}
use capycoin.Client.Exchange.{send_and_recv_msg-Answers}
use capycoin.Tests.Fixtures.{calm, alice, seeded, two_accounts}
use capycoin.Tests.Ready.{seeded-IsConsistent}
use capycoin.Tests.Codec.{codec, strokes}
use capycoin.Tests.Core.{debug_sql, fresh, fresh_ne_seed, request, request_served, request_written}

abbrev pub address : Address
address = record { pid = 100; ts = 5 }

abbrev no_files : Conn (List Address)
no_files = record { db = []; calls = 0 }

abbrev response : List ℕ
response = strokes 3 (strokes alice (strokes 2 []))

-- The core of `Tests.Core` answers.
abbrev answered : Wire
answered = record {
  refused = false;
  sets_timeout = true;
  sets_options = true;
  connects = true;
  sends = true;
  recv = λ sent. some response;
}

-- Nothing comes back within a second.
abbrev pub silent : Wire
silent = record {
  refused = false;
  sets_timeout = true;
  sets_options = true;
  connects = true;
  sends = true;
  recv = λ sent. none;
}

-- The socket's file stays in `/tmp` when the answer does not come in time.
silent_file :
    (send_and_recv_msg {E = Unit {0}} codec silent address 3 create_new_account no_files).1.db
    ≡ address ∷ []
unfolding execute send_and_recv_msg exchange take bind_socket remove_socket client_to_json
    new_client_packet
silent_file = refl

send_and_recv_msg-Answers_example :
    (m : ServerMessage) × ((send_and_recv_msg {E = Unit {0}} codec answered address 3
        create_new_account no_files).0
      ≡ ok (some m))
    × Answers calm fresh seeded.db create_new_account m two_accounts.db
send_and_recv_msg-Answers_example =
    send_and_recv_msg-Answers calm debug_sql codec fresh answered address 3 create_new_account
      no_files request response seeded two_accounts seeded-IsConsistent fresh_ne_seed
      request_written request_served refl (omega arith) refl refl refl refl refl
