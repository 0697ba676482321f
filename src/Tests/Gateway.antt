-- ===== src/Tests/Gateway.antt =====
-- src/bin/client_gateway.rs on concrete requests.
use capycoin.Base.{◌≡◌, ◌↔◌, true, false, none, some, [], ◌∷◌, ◌++◌}
use capycoin.Base.Int.{pos}
use capycoin.Sqlite.{Conn}
use capycoin.Gateway.Token.{bearer, bearer_token}
use capycoin.Gateway.Bearer.{contains, bearer_token_iff}
use capycoin.Gateway.{Request, post, Libraries, Draw, World}
use capycoin.Gateway.Handlers.{account_word, transaction_word, router}
use capycoin.Gateway.Sends.{Sends}
use capycoin.Gateway.Guarded.{Permitted, router-Sends}
use capycoin.Tests.Fixtures.{calm, counting, today, alice}
use capycoin.Tests.Codec.{codec}
use capycoin.Tests.Core.{debug_sql}
use capycoin.Tests.Client.{address, silent}
use capycoin.Tests.Auth.{digits, table}

-- An account's id is written by one digit.
abbrev libraries : Libraries
libraries = record {
  engine = calm;
  bcrypt = counting;
  json = codec;
  parse_uuid = λ s. some alice;
  parse_date = λ s. none;
  debug_sql = debug_sql;
}

abbrev draw : Draw
draw = record {
  opens = true;
  random = λ i. 0;
  salt = 1;
  now = today;
  wire = silent;
  address = address;
  id = 4;
}

-- `POST /account/7/transaction` with the token of the account.
abbrev payment_request : Request
payment_request = record {
  method = post;
  path = account_word ∷ (b'7' ∷ []) ∷ transaction_word ∷ [];
  authorization = some (bearer ++ digits);
  start = none;
  end = none;
  json_input = some (record { receiver = 9; amount = pos 5 });
}

abbrev world : Conn World
world = record { db = record { auth = table.db; sockets = []; sent = [] }; calls = 0 }

router-Sends_example :
    Sends
      (Permitted libraries draw payment_request table)
      []
      (router libraries draw payment_request world)
router-Sends_example = router-Sends libraries draw payment_request world

bearer_token_iff_example :
    (bearer_token (some (bearer ++ digits)) ≡ some digits)
    ↔ ((bearer ++ digits ≡ bearer ++ digits) × (contains digits ≡ false))
bearer_token_iff_example = bearer_token_iff (bearer ++ digits) digits
