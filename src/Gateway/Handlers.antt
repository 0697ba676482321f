-- ===== src/Gateway/Handlers.antt =====
-- The handlers of src/bin/client_gateway.rs, and its router.
use capycoin.Base.{
  ℕ, Bool, true, false, Option, none, some, List, [], ◌∷◌, ◌==◌, ◌&&◌, if◌then◌else◌, is_some,
}
use capycoin.Sqlite.{Outcome, ok, err, ◌>>=◌, ◌>>◌, pure, from_outcome, raise_if}
use capycoin.Database.{Uuid, Time}
use capycoin.Auth.{create_token, validate_token}
use capycoin.Message.{
  ClientMessage, ServerMessage, create_new_account, get_account, get_transactions, get_transaction,
  create_transaction,
}
use capycoin.Client.{send_and_recv_msg}
use capycoin.Gateway.Token.{bearer_token}
use capycoin.Gateway.{
  Method, get, post, other, Request, Body, root, empty, text, created_account, account,
  transactions, transaction, receipt, Response, Libraries, Draw, refusal, Handler, or_return,
  in_auth, open_auth, admit, created_of, account_of, transactions_of, receipt_of, transaction_of,
  token_of,
}

-- `Response::json(&value)`, and `Response::html`.
abbrev pub success : Body → Response
success body = record { status = 200; body = body }

abbrev pub not_found : Response
not_found = record { status = 404; body = empty }

abbrev pub same_text : List ℕ → List ℕ → Bool
same_text [] [] = true
same_text (a ∷ s) (b ∷ t) = (a == b) && same_text s t
same_text _ _ = false

-- The words of the routes.
abbrev pub account_word : List ℕ
account_word = b'a' ∷ b'c' ∷ b'c' ∷ b'o' ∷ b'u' ∷ b'n' ∷ b't' ∷ []

abbrev pub transaction_word : List ℕ
transaction_word = b't' ∷ b'r' ∷ b'a' ∷ b'n' ∷ b's' ∷ b'a' ∷ b'c' ∷ b't' ∷ b'i' ∷ b'o' ∷ b'n' ∷ []

abbrev pub transactions_word : List ℕ
transactions_word =
    b't' ∷ b'r' ∷ b'a' ∷ b'n' ∷ b's' ∷ b'a' ∷ b'c' ∷ b't' ∷ b'i' ∷ b'o' ∷ b'n' ∷ b's' ∷ []

module _ (lib : Libraries) (draw : Draw) where
  -- `send_and_recv_msg`; the message is noted.
  unfoldable pub send : ClientMessage → Handler (Option ServerMessage)
  send message c =
      let (r, c') =
        send_and_recv_msg lib.json draw.wire draw.address draw.id message
          (record { db = c.db.sockets; calls = c.calls }) in
      (
        r,
        record {
          db = record (c.db) { sockets = c'.db; sent = message ∷ c.db.sent };
          calls = c'.calls;
        },
      )

  module _ (request : Request) where
    unfoldable pub create_account_handler : Handler Response
    create_account_handler = do
      raise_if (is_some (bearer_token request.authorization))
          (refusal 400 "Bearer Auth not necessary")
      sent ← send create_new_account
      res ← from_outcome (created_of sent)
      open_auth draw
      created ←
          in_auth (create_token lib.engine lib.bcrypt draw.random draw.salt draw.now res.account_id)
      token ← from_outcome (token_of lib.debug_sql created)
      pure (success (created_account res.account_id token.token token.expiry))

    -- `validate_token_response`: a `Some(response)`, which the handlers return at once, is an error.
    unfoldable pub validate_token_response : Uuid → Handler (Unit {0})
    validate_token_response account_id = do
      token_str ←
          from_outcome
            (or_return (refusal 401 "Token required!") (bearer_token request.authorization))
      open_auth draw
      valid ← in_auth (validate_token lib.engine lib.bcrypt draw.now token_str account_id)
      from_outcome (admit valid)

    -- `Uuid::parse_str`, with the response to a text that is none.
    abbrev pub parse_or : Response → List ℕ → Handler Uuid
    parse_or response s = from_outcome (or_return response (lib.parse_uuid s))

    unfoldable pub get_account_handler : List ℕ → Handler Response
    get_account_handler account_text = do
      account_id ← parse_or (refusal 400 "Invalid format for `account_id`") account_text
      validate_token_response account_id
      resp ← send (get_account account_id)
      res ← from_outcome (account_of resp)
      pure (success (account res))

    unfoldable pub parse_date_param : Option (List ℕ) → Option Time
    parse_date_param none = none
    parse_date_param (some val) = lib.parse_date val

    -- `match (start, end) { (Some(start), Some(end)) => …, _ => … }`
    abbrev pub both : Option Time → Option Time → Outcome Response (Time × Time)
    both (some start) (some end) = ok (start, end)
    both _ _ = err (record { status = 400; body = text "`start` and `end` params are required!" })

    unfoldable pub get_transactions_handler : List ℕ → Handler Response
    get_transactions_handler account_text = do
      account_id ←
          parse_or (record { status = 400; body = text "Invalid format for `account_id`" })
            account_text
      validate_token_response account_id
      range ← from_outcome (both (parse_date_param request.start) (parse_date_param request.end))
      resp ← send (get_transactions account_id range.0 range.1)
      res ← from_outcome (transactions_of resp)
      pure (success (transactions account_id res))

    unfoldable pub create_transaction_handler : List ℕ → Handler Response
    create_transaction_handler account_text = do
      account_id ← parse_or (refusal 400 "Invalid format for `account_id`") account_text
      validate_token_response account_id
      tx_request ←
          from_outcome
            (or_return (refusal 400 "Unexpected transaction request format") request.json_input)
      resp ← send (create_transaction account_id tx_request.receiver tx_request.amount)
      res ← from_outcome (receipt_of resp)
      pure (success (receipt res))

    unfoldable pub get_transaction_handler : List ℕ → List ℕ → Handler Response
    get_transaction_handler account_text transaction_text = do
      account_id ← parse_or (refusal 400 "Invalid format for `account_id`") account_text
      transaction_id ← parse_or (refusal 400 "Invalid format for `transaction_id`") transaction_text
      validate_token_response account_id
      resp ← send (get_transaction account_id transaction_id)
      res ← from_outcome (transaction_of resp)
      pure (success (transaction res))

    -- The routes of one method, by the parts of the path.
    abbrev pub get_route : List (List ℕ) → Handler Response
    get_route [] = pure (success root)
    get_route (word ∷ id ∷ []) =
        if same_text word account_word then get_account_handler id else pure not_found
    get_route (word ∷ id ∷ kind ∷ []) =
        if same_text word account_word && same_text kind transactions_word
        then get_transactions_handler id
        else pure not_found
    get_route (word ∷ id ∷ kind ∷ transaction_id ∷ []) =
        if same_text word account_word && same_text kind transaction_word
        then get_transaction_handler id transaction_id
        else pure not_found
    get_route _ = pure not_found

    abbrev pub post_route : List (List ℕ) → Handler Response
    post_route (word ∷ []) =
        if same_text word account_word then create_account_handler else pure not_found
    post_route (word ∷ id ∷ kind ∷ []) =
        if same_text word account_word && same_text kind transaction_word
        then create_transaction_handler id
        else pure not_found
    post_route _ = pure not_found

    abbrev pub route : Method → List (List ℕ) → Handler Response
    route get path = get_route path
    route post path = post_route path
    route other path = pure not_found

    -- `router!`
    unfoldable pub router : Handler Response
    router = route request.method request.path
