-- ===== src/Tests/Life.antt =====
-- The life of src/bin/client_gateway.rs: a start on an empty file, a request for a new account, and a
-- token that is checked.
use capycoin.Base.{take, ◌≡◌, refl, true, none, some, [], ◌∷◌, ◌++◌}
use capycoin.Base.Utf8.{from_utf8, is_utf8, is_utf8_from, advance}
use capycoin.Sqlite.{ok, execute, Conn}
use capycoin.Account.{save_account, new_account}
use capycoin.Account.Table.{insert_account}
use capycoin.Auth.{
  AuthRow, AuthDatabase, Token, add_time, new_token, to_string, create_token, create_auth_table,
  from_hex_string, check_rows, judge, validate_token,
}
use capycoin.Auth.Hex.{parse_pairs, hex_digit, from_str_radix}
use capycoin.Auth.Validate.{Accepts}
use capycoin.Message.{
  from_created, as_resp_for, client_from_json, client_to_json, new_client_packet, server_to_json,
  server_from_json,
}
use capycoin.Client.{bind_socket, remove_socket, exchange, send_and_recv_msg}
use capycoin.Core.{handler, message_dispatch, respond}
use capycoin.Gateway.Token.{bearer, bearer_token}
use capycoin.Gateway.{Request, get, open_auth, in_auth}
use capycoin.Gateway.Handlers.{account_word, router, send, create_account_handler}
use capycoin.Gateway.Guarded.{Authorized}
use capycoin.Gateway.Bearer.{bearer_token_iff}
use capycoin.Gateway.Life.{Visit, Starts, make_table, Life, empty, begin, serve}
use capycoin.Gateway.Life.Issues.{Issued}
use capycoin.Gateway.Life.Keeps.{Keeps, Life-Keeps}
use capycoin.Gateway.Life.Owners.{Authorized-Issued}
use capycoin.Tests.Fixtures.{counting, today, alice}
use capycoin.Tests.Auth.{digits, digits-All, table}
use capycoin.Tests.Reports.{libraries, draw, account_request}

abbrev no_file : Conn AuthDatabase
no_file = record { db = record { auth = none }; calls = 0 }

abbrev starts : Starts
starts = record { opens = true; closes = true }

abbrev opened : AuthDatabase
opened = record { auth = some [] }

started : Life libraries true [] opened
unfolding execute make_table create_auth_table
started = begin starts no_file (empty refl) refl refl

-- `POST /account`
abbrev visit : Visit
visit = record {
  draw = draw;
  request = account_request;
  world = record { db = record { auth = opened; sockets = []; sent = [] }; calls = 0 };
}

-- The new account's token is made of zeros.
served : Life libraries true (visit ∷ []) table.db
unfolding router create_account_handler bearer_token send send_and_recv_msg exchange take
    bind_socket remove_socket client_to_json new_client_packet server_from_json execute handler
    message_dispatch respond save_account insert_account new_account from_created as_resp_for
    client_from_json server_to_json from_utf8 is_utf8 is_utf8_from advance open_auth in_auth
    create_token new_token to_string add_time capycoin.Auth.draw
served = serve visit started refl

Life-Keeps_example : Keeps libraries (visit ∷ []) true table.db
Life-Keeps_example = Life-Keeps libraries (visit ∷ []) true table.db served

-- `GET /account/7` with that token.
abbrev account_query : Request
account_query = record {
  method = get;
  path = account_word ∷ (b'7' ∷ []) ∷ [];
  authorization = some (bearer ++ digits);
  start = none;
  end = none;
  json_input = none;
}

query_token : bearer_token account_query.authorization ≡ some digits
query_token = (bearer_token_iff (bearer ++ digits) digits).1 (refl, refl)

authorized : Authorized libraries draw account_query table alice
unfolding execute validate_token check_rows judge from_hex_string parse_pairs hex_digit
    from_str_radix
authorized = record { token = digits; is_bearer = query_token; opened = refl; valid = refl }

Authorized-Issued_example :
    (token : Token) × (row : AuthRow) × (from_hex_string digits ≡ ok token)
    × (row.account_id ≡ alice)
    × Accepts counting today token row
    × ∥ Issued libraries (visit ∷ []) row ∥₁
unfolding authorized
Authorized-Issued_example =
    Authorized-Issued libraries (visit ∷ []) draw account_query table alice authorized served
      digits-All
