-- ===== src/Message.antt =====
-- src/message.rs: the messages between the core and its clients, and the conversions of results.
pub mod Laws
use Prim.Native.String
use Prim.Native.String.{String}
use capycoin.Base.Utf8.{is_utf8}
use capycoin.Base.{ℕ, ◌≡◌, Option, none, some, List, true}
use capycoin.Base.Int.{ℤ, pos, IsI64, eqb_ℤ}
use capycoin.Base.{if◌then◌else◌}
use capycoin.Sqlite.{SqlError}
use capycoin.Database.{Uuid, Time, Transaction}
use capycoin.Account.{Account, AccountCreatedResult, AccountError}
use capycoin.Auth.{AuthError}
use capycoin.Ledger.{TransactionReceipt, TransactionError}

-- Rust's `Result<A, E>`, with the error first.
pub data Result (E A : Type 0) : Type 0 where
  ok : A → Result E A
  err : E → Result E A

pub data ClientMessage : Type 0 where
  create_new_account : ClientMessage
  get_account : (account_id : Uuid) → ClientMessage
  get_accounts : ClientMessage
  get_transactions : (account_id : Uuid) (time_range_start time_range_end : Time) → ClientMessage
  get_transaction : (account_id transaction_id : Uuid) → ClientMessage
  create_transaction : (sender_id receiver_id : Uuid) (amount : ℤ) → ClientMessage

-- A message of a type that Rust can hold: its amount is an `i64`.
abbrev pub IsTyped : ClientMessage → Type 0
IsTyped (create_transaction sender_id receiver_id amount) = IsI64 amount
IsTyped _ = Unit

pub record ClientMessagePacket : Type 0 where
  pub v : ℤ
  pub message_id : Uuid
  pub message : ClientMessage

pub record ServerError : Type 0 where
  pub error_type : String
  pub error_message : String

pub data ServerMessage : Type 0 where
  create_new_account_response : Result ServerError AccountCreatedResult → ServerMessage
  get_account_response : Result ServerError Account → ServerMessage
  get_accounts_response : Result ServerError (List Account) → ServerMessage
  get_transactions_response : Result ServerError (List Transaction) → ServerMessage
  get_transaction_response : Result ServerError Transaction → ServerMessage
  create_transaction_response : Result ServerError TransactionReceipt → ServerMessage

pub record ServerMessagePacket : Type 0 where
  pub v : ℤ
  pub message_id : Uuid
  pub message : ServerMessage

-- `ClientMessagePacket::new`; the random id is given.
unfoldable pub new_client_packet : Uuid → ClientMessage → ClientMessagePacket
new_client_packet id msg = record { v = pos 1; message_id = id; message = msg }

-- `ServerMessagePacket::new`
unfoldable pub new_server_packet : Uuid → ServerMessage → ServerMessagePacket
new_server_packet id msg = record { v = pos 1; message_id = id; message = msg }

unfoldable pub as_resp_for : ServerMessage → ClientMessagePacket → ServerMessagePacket
as_resp_for resp msg = record { v = pos 1; message_id = msg.message_id; message = resp }

-- The code of `serde_json`: writing a packet, as a text of UTF-8, and reading one. What is written is
-- read back as it was, and a number that does not fit its type is not read.
pub record Json : Type 0 where
  pub client_to_string : ClientMessagePacket → Option (List ℕ)
  pub client_from_str : List ℕ → Option ClientMessagePacket
  pub server_to_string : ServerMessagePacket → Option (List ℕ)
  pub server_from_str : List ℕ → Option ServerMessagePacket
  pub client_is_utf8 :
      (p : ClientMessagePacket) (s : List ℕ) → client_to_string p ≡ some s → is_utf8 s ≡ true
  pub server_is_utf8 :
      (p : ServerMessagePacket) (s : List ℕ) → server_to_string p ≡ some s → is_utf8 s ≡ true
  pub client_reads :
      (p : ClientMessagePacket) (s : List ℕ)
      → client_to_string p ≡ some s
      → client_from_str s ≡ some p
  pub server_reads :
      (p : ServerMessagePacket) (s : List ℕ)
      → server_to_string p ≡ some s
      → server_from_str s ≡ some p
  pub client_IsTyped :
      (s : List ℕ) (p : ClientMessagePacket) → client_from_str s ≡ some p → IsTyped p.message

-- Only version 1 is accepted.
abbrev pub client_version : ClientMessagePacket → Option ClientMessagePacket
client_version msg = if eqb_ℤ msg.v (pos 1) then some msg else none

abbrev pub server_version : ServerMessagePacket → Option ServerMessagePacket
server_version msg = if eqb_ℤ msg.v (pos 1) then some msg else none

module _ (json : Json) where
  -- `ClientMessagePacket::to_json` and `from_json`; what goes wrong is printed, and gives `None`.
  unfoldable pub client_to_json : ClientMessagePacket → Option (List ℕ)
  client_to_json p = json.client_to_string p

  unfoldable pub client_from_json : List ℕ → Option ClientMessagePacket
  client_from_json value = elim (json.client_from_str value) [
    | none ↦ none
    | some msg ↦ client_version msg
  ]

  -- `ServerMessagePacket::to_json` and `from_json`
  unfoldable pub server_to_json : ServerMessagePacket → Option (List ℕ)
  server_to_json p = json.server_to_string p

  unfoldable pub server_from_json : List ℕ → Option ServerMessagePacket
  server_from_json value = elim (json.server_from_str value) [
    | none ↦ none
    | some msg ↦ server_version msg
  ]

-- `format!("{:?}", …)`, which `#[derive(Debug)]` makes of a variant's name and its fields. The debug
-- form of a `rusqlite::Error` is a parameter.
abbrev sql_text : String → String
sql_text e = String.◌++◌ "SQLError(" (String.◌++◌ e ")")

unfoldable pub debug_account_error : (SqlError → String) → AccountError → String
debug_account_error debug_sql (AccountError.sql_error e) = sql_text (debug_sql e)
debug_account_error debug_sql AccountError.account_already_exists = "AccountAlreadyExists"
debug_account_error debug_sql AccountError.account_does_not_exist = "AccountDoesNotExist"

unfoldable pub debug_transaction_error : (SqlError → String) → TransactionError → String
debug_transaction_error debug_sql (TransactionError.sql_error e) = sql_text (debug_sql e)
debug_transaction_error debug_sql TransactionError.amount_is_zero = "AmountIsZero"
debug_transaction_error debug_sql TransactionError.amount_is_negative = "AmountIsNegative"
debug_transaction_error debug_sql TransactionError.fee_is_negative = "FeeIsNegative"
debug_transaction_error debug_sql TransactionError.sender_account_not_enough_funds =
    "SenderAccountNotEnoughFunds"
debug_transaction_error debug_sql TransactionError.sender_account_does_not_exist =
    "SenderAccountDoesNotExist"
debug_transaction_error debug_sql TransactionError.receiver_account_does_not_exist =
    "ReceiverAccountDoesNotExist"
debug_transaction_error debug_sql TransactionError.sender_receiver_are_the_same =
    "SenderReceiverAreTheSame"
debug_transaction_error debug_sql TransactionError.transaction_does_not_exist =
    "TransactionDoesNotExist"
debug_transaction_error debug_sql TransactionError.permission_denied = "PermissionDenied"

unfoldable pub debug_auth_error : (SqlError → String) → AuthError → String
debug_auth_error debug_sql (AuthError.sql_error e) = sql_text (debug_sql e)
debug_auth_error debug_sql AuthError.token_length_error = "TokenLengthError"
debug_auth_error debug_sql AuthError.token_parse_error =
    "TokenParseError(ParseIntError { kind: InvalidDigit })"
debug_auth_error debug_sql AuthError.token_crypt_error = "TokenCryptError"
debug_auth_error debug_sql AuthError.token_expired = "TokenExpired"
debug_auth_error debug_sql AuthError.token_does_not_exist = "TokenDoesNotExist"

-- The conversion of the error in an `Err(e.into())`.
abbrev pub with_error : {E A : Type 0} → (E → ServerError) → Result E A → Result ServerError A
with_error f (ok a) = ok a
with_error f (err e) = err (f e)

module _ (debug_sql : SqlError → String) where
  -- The three `From<…> for ServerError`.
  unfoldable pub from_account_error : AccountError → ServerError
  from_account_error e = record {
    error_type = "AccountError";
    error_message = debug_account_error debug_sql e;
  }

  unfoldable pub from_transaction_error : TransactionError → ServerError
  from_transaction_error e = record {
    error_type = "TransactionError";
    error_message = debug_transaction_error debug_sql e;
  }

  unfoldable pub from_auth_error : AuthError → ServerError
  from_auth_error e = record {
    error_type = "AuthError";
    error_message = debug_auth_error debug_sql e;
  }

  -- The six `From<Result<…>> for ServerMessage`.
  unfoldable pub from_created : Result AccountError AccountCreatedResult → ServerMessage
  from_created r = create_new_account_response (with_error from_account_error r)

  unfoldable pub from_account : Result AccountError Account → ServerMessage
  from_account r = get_account_response (with_error from_account_error r)

  unfoldable pub from_accounts : Result AccountError (List Account) → ServerMessage
  from_accounts r = get_accounts_response (with_error from_account_error r)

  unfoldable pub from_transactions : Result TransactionError (List Transaction) → ServerMessage
  from_transactions r = get_transactions_response (with_error from_transaction_error r)

  unfoldable pub from_transaction : Result TransactionError Transaction → ServerMessage
  from_transaction r = get_transaction_response (with_error from_transaction_error r)

  unfoldable pub from_receipt : Result TransactionError TransactionReceipt → ServerMessage
  from_receipt r = create_transaction_response (with_error from_transaction_error r)
