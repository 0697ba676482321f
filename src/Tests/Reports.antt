-- ===== src/Tests/Reports.antt =====
-- src/bin/client_gateway.rs with src/bin/core.rs behind it, on a request for a new account.
use capycoin.Base.{
  leb, length, ◌≤◌, arith, if◌then◌else◌, take, ℕ, ◌≡◌, refl, true, false, Option, none, some, List,
  [], ◌∷◌,
}
use capycoin.Sqlite.{Outcome, ok, err, panic, Conn, execute}
use capycoin.Base.Utf8.{from_utf8, is_utf8, is_utf8_from, advance}
use capycoin.Account.{save_account, new_account}
use capycoin.Account.Table.{insert_account}
use capycoin.Auth.{add_time, new_token, to_string, create_token}
use capycoin.Message.{
  from_created, as_resp_for, client_from_json, client_to_json, new_client_packet, server_to_json,
  server_from_json,
}
use capycoin.Client.{bind_socket, remove_socket, exchange, send_and_recv_msg}
use capycoin.Gateway.Token.{bearer_token}
use capycoin.Core.{AppError, handler, message_dispatch, respond}
use capycoin.Gateway.{Request, post, Libraries, Draw, World, Response, open_auth, in_auth}
use capycoin.Gateway.Handlers.{account_word, router, send, create_account_handler}
use capycoin.Gateway.Sends.{Sends}
use capycoin.Gateway.Guarded.{Permitted}
use capycoin.Gateway.Responds.{Responds}
use capycoin.Gateway.Asked.{CoreProcess, IsCore}
use capycoin.Gateway.Tells.{Reports}
use capycoin.Gateway.Reports.{router-Reports}
use capycoin.Tests.Fixtures.{calm, counting, today, alice, seeded}
use capycoin.Tests.Ready.{seeded-IsConsistent}
use capycoin.Tests.Codec.{codec}
use capycoin.Tests.Core.{debug_sql, fresh, fresh_ne_seed}
use capycoin.Tests.Client.{address}
use capycoin.Tests.Auth.{table}

abbrev pub libraries : Libraries
libraries = record {
  engine = calm;
  bcrypt = counting;
  json = codec;
  parse_uuid = λ s. some alice;
  parse_date = λ s. none;
  debug_sql = debug_sql;
}

abbrev core : CoreProcess
core = record { engine = calm; debug_sql = debug_sql; fresh = fresh; con = seeded }

-- What comes back: a reply that fits.
abbrev reply_of : Outcome AppError (Option (List ℕ)) → Option (List ℕ)
reply_of (ok (some msg)) = if leb (length msg) 1048576 then some msg else none
reply_of (ok none) = none
reply_of (err e) = none
reply_of panic = none

reply_of-some :
    (r : Outcome AppError (Option (List ℕ))) (msg : List ℕ)
    → reply_of r ≡ some msg
    → (r ≡ ok (some msg)) × (length msg ≤ 1048576)
reply_of-some (ok (some reply)) msg e = (ground arith, ground arith)
reply_of-some (ok none) msg e = cc
reply_of-some (err x) msg e = cc
reply_of-some panic msg e = cc

-- The socket of the core.
abbrev pub draw : Draw
draw = record {
  opens = true;
  random = λ i. 0;
  salt = 1;
  now = today;
  wire = record {
    refused = false;
    sets_timeout = true;
    sets_options = true;
    connects = true;
    sends = true;
    recv = λ sent. reply_of (handler calm debug_sql codec fresh sent seeded).0;
  };
  address = address;
  id = 3;
}

is_core : IsCore libraries draw core
is_core sent msg e = reply_of-some (handler calm debug_sql codec fresh sent seeded).0 msg e

-- `POST /account`
abbrev pub account_request : Request
account_request = record {
  method = post;
  path = account_word ∷ [];
  authorization = none;
  start = none;
  end = none;
  json_input = none;
}

abbrev world : Conn World
world = record { db = record { auth = table.db; sockets = []; sent = [] }; calls = 0 }

router-Reports_example :
    Responds
      (Reports libraries draw core account_request (record { db = table.db; calls = 0 }))
      (router libraries draw account_request world)
    × Sends
        (Permitted libraries draw account_request (record { db = table.db; calls = 0 }))
        []
        (router libraries draw account_request world)
router-Reports_example =
    router-Reports libraries draw core account_request world is_core seeded-IsConsistent
      fresh_ne_seed

abbrev status_of : Outcome Response Response → ℕ
status_of (ok resp) = resp.status
status_of (err e) = e.status
status_of panic = 0

-- The account is created, with a token.
created : status_of (router libraries draw account_request world).0 ≡ 200
unfolding router create_account_handler bearer_token send send_and_recv_msg exchange take
    bind_socket remove_socket client_to_json new_client_packet server_from_json execute handler
    message_dispatch respond save_account insert_account new_account from_created as_resp_for
    client_from_json server_to_json from_utf8 is_utf8 is_utf8_from advance open_auth in_auth
    create_token new_token to_string add_time capycoin.Auth.draw
created = refl
