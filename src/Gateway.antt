-- ===== src/Gateway.antt =====
-- src/bin/client_gateway.rs: the HTTP front of the core, and its check of tokens.
pub mod Token
pub mod Handlers
pub mod Sends
pub mod Guarded
pub mod Bearer
pub mod Responds
pub mod Asked
pub mod Tells
pub mod Reports
pub mod Life
use Prim.Native.String.{String}
use capycoin.Base.{
  ℕ, Bool, true, false, Option, none, some, List, [], ◌∷◌, ◌==◌, ◌&&◌, if◌then◌else◌, is_some,
}
use capycoin.Base.Int.{ℤ}
use capycoin.Sqlite.{
  SqlError, Engine, Outcome, ok, err, panic, Conn, Sql, ◌>>=◌, ◌>>◌, pure, throw, from_outcome,
  raise_if,
}
use capycoin.Database.{Uuid, Time, Transaction}
use capycoin.Account.{Account, AccountCreatedResult}
use capycoin.Ledger.{TransactionReceipt}
use capycoin.Auth.{
  AuthError, AuthDatabase, Bcrypt, TokenCreatedResult, create_token, validate_token,
}
use capycoin.Message.{
  Result, ClientMessage, ServerMessage, ServerError, Json, create_new_account, get_account,
  get_transactions, get_transaction, create_transaction, create_new_account_response,
  get_account_response, get_transactions_response, get_transaction_response,
  create_transaction_response, from_auth_error,
}
use capycoin.Client.{Address, Wire, send_and_recv_msg}
use Token.{bearer_token}

pub data Method : Type 0 where
  get post other : Method

-- `TransationRequest`
pub record TransactionRequest : Type 0 where
  pub receiver : Uuid
  pub amount : ℤ

-- A request, as `rouille` gives it: the parts of the path between the slashes, the header
-- `Authorization`, the two parameters of the query, and what `json_input` makes of the body.
pub record Request : Type 0 where
  pub method : Method
  pub path : List (List ℕ)
  pub authorization : Option (List ℕ)
  pub start : Option (List ℕ)
  pub end : Option (List ℕ)
  pub json_input : Option TransactionRequest

pub data Body : Type 0 where
  root empty : Body
  text : String → Body
  error : ServerError → Body
  created_account : (account_id : Uuid) (token : List ℕ) (token_expiry : Time) → Body
  account : Account → Body
  transactions : (account_id : Uuid) (transactions : List Transaction) → Body
  transaction : Transaction → Body
  receipt : TransactionReceipt → Body

pub record Response : Type 0 where
  pub status : ℕ
  pub body : Body

-- What the process works on: the database of tokens, the socket files, and the messages that it has
-- given to `send_and_recv_msg` so far, the last one first.
pub record World : Type 0 where
  pub auth : AuthDatabase
  pub sockets : List Address
  pub sent : List ClientMessage

-- The libraries: SQLite, `bcrypt`, `serde_json`, the parsers of `uuid` and of `time` (a date as the
-- instant of its midnight), and the debug form of an error.
pub record Libraries : Type 1 where
  pub engine : Engine
  pub bcrypt : Bcrypt
  pub json : Json
  pub parse_uuid : List ℕ → Option Uuid
  pub parse_date : List ℕ → Option Time
  pub debug_sql : SqlError → String

-- What the system gives to the handling of one request, which opens the database, draws a token and
-- sends a message at most once.
pub record Draw : Type 0 where
  pub opens : Bool
  pub random : ℕ → ℕ
  pub salt : ℕ
  pub now : Time
  pub wire : Wire
  pub address : Address
  pub id : Uuid

unfoldable pub gateway_error : String → ServerError
gateway_error message = record { error_type = "GatewayError"; error_message = message }

-- `Response::json(&gateway_error(message)).with_status_code(status)`
unfoldable pub refusal : ℕ → String → Response
refusal status message = record { status = status; body = error (gateway_error message) }

-- A handler: an error is a response that is returned early.
abbrev pub Handler : Type 0 → Type 0
Handler A = Sql World Response A

-- `match … { Ok(v) => v, Err(_) => return response }`, and the same for an Option.
abbrev pub or_return : {A : Type 0} → Response → Option A → Outcome Response A
or_return response none = err response
or_return response (some a) = ok a

abbrev pub result_of : {F E A : Type 0} → Outcome E A → Outcome F (Result E A)
result_of (ok a) = ok (Result.ok a)
result_of (err e) = ok (Result.err e)
result_of panic = panic

-- A call on the database of tokens, with its result as a value.
unfoldable pub in_auth : {E A : Type 0} → Sql AuthDatabase E A → Handler (Result E A)
in_auth m c =
    let (r, c') = m (record { db = c.db.auth; calls = c.calls }) in
    (result_of r, record { db = record (c.db) { auth = c'.db }; calls = c'.calls })

-- `Connection::open("auth.db3")`
unfoldable pub open_auth : Draw → Handler (Unit {0})
open_auth draw = raise_if (if draw.opens then false else true) (refusal 500 "Internal server error")

-- The answer to a check of a token.
abbrev pub admit : Result AuthError Bool → Outcome Response (Unit {0})
admit (Result.err e) = err (refusal 401 "Invalid token!")
admit (Result.ok false) = err (refusal 401 "Invalid token!")
admit (Result.ok true) = ok tt

-- How the handlers take the core's response.
abbrev pub unexpected : Response
unexpected = refusal 500 "Unexpected response from server"

abbrev pub failed : {A : Type 0} → ServerError → Outcome Response A
failed e = err (record { status = 500; body = error e })

abbrev pub created_of : Option ServerMessage → Outcome Response AccountCreatedResult
created_of (some (create_new_account_response (Result.ok r))) = ok r
created_of (some (create_new_account_response (Result.err e))) = failed e
created_of _ = err unexpected

abbrev pub account_of : Option ServerMessage → Outcome Response Account
account_of (some (get_account_response (Result.ok r))) = ok r
account_of _ = err (record { status = 500; body = text "Unexpected response from core" })

abbrev pub transactions_of : Option ServerMessage → Outcome Response (List Transaction)
transactions_of (some (get_transactions_response (Result.ok r))) = ok r
transactions_of (some (get_transactions_response (Result.err e))) = failed e
transactions_of _ = err unexpected

abbrev pub receipt_of : Option ServerMessage → Outcome Response TransactionReceipt
receipt_of (some (create_transaction_response (Result.ok r))) = ok r
receipt_of (some (create_transaction_response (Result.err e))) = failed e
receipt_of _ = err unexpected

abbrev pub transaction_of : Option ServerMessage → Outcome Response Transaction
transaction_of (some (get_transaction_response (Result.ok r))) = ok r
transaction_of (some (get_transaction_response (Result.err e))) = failed e
transaction_of _ = err unexpected

-- `match auth::create_token(…)`
abbrev pub token_of :
    (SqlError → String) → Result AuthError TokenCreatedResult → Outcome Response TokenCreatedResult
token_of debug_sql (Result.ok t) = ok t
token_of debug_sql (Result.err e) = failed (from_auth_error debug_sql e)
