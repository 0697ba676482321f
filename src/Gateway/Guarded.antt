-- ===== src/Gateway/Guarded.antt =====
-- What src/bin/client_gateway.rs sends to the core: a message for an account only with a token of the
-- account.
use capycoin.Base.{
  ap, All, ◌<◌, ℕ, ◌≡◌, refl, inl, inr, Bool, true, false, none, some, List, [], ◌∷◌, ◌∙◌, is_some,
  ◌&&◌, if◌then◌else◌,
}
use capycoin.Sqlite.{Outcome, ok, err, panic, Conn, bind, from_outcome}
use capycoin.Database.{Uuid}
use capycoin.Auth.{AuthError, AuthDatabase, AuthRow, Token, from_hex_string, validate_token}
use capycoin.Auth.Validate.{Means, validate_token-Settles}
use capycoin.Sqlite.Laws.{Settles-ok}
use capycoin.Message.{
  ClientMessage, create_new_account, get_account, get_accounts, get_transactions, get_transaction,
  create_transaction,
}
use capycoin.Gateway.Token.{bearer_token}
use capycoin.Gateway.{
  Method, Request, get, post, other, Response, World, Libraries, Draw, refusal, Handler, or_return,
  in_auth, open_auth, admit,
}
use capycoin.Gateway.Handlers.{
  send, create_account_handler, validate_token_response, get_account_handler,
  get_transactions_handler, create_transaction_handler, get_transaction_handler, get_route,
  post_route, route, router, same_text, account_word, transaction_word, transactions_word,
}
use capycoin.Gateway.Sends.{
  Quiet, Sends, IsStill, bind-Sends, bind-sent, from_outcome-Sends, bind-IsStill,
  from_outcome-IsStill, from_outcome-Quiet, open_auth-Quiet, raise_if-Sends, none_of_is_some,
  in_auth-IsStill, open_auth-IsStill, or_return-ok,
}

module _ (lib : Libraries) (draw : Draw) where
  send-sent : (m : ClientMessage) (c : Conn World) → (send lib draw m c).1.db.sent ≡ m ∷ c.db.sent
  unfolding send
  send-sent m c = refl

  -- What is left after a message was sent.
  send-Sends :
      {B : Type 0} (P : ClientMessage → Type 0) (before : List ClientMessage) (m : ClientMessage)
      (c : Conn World) (f : _ → Handler B)
      → c.db.sent ≡ before
      → P m
      → ((a : _) → IsStill (f a))
      → Sends P before (bind (send lib draw m c) f)
  send-Sends P before m c f same p still =
      inr (m, p, bind-sent (send lib draw m c) f still ∙ (send-sent m c ∙ ap (λ l. m ∷ l) same))

  module _ (request : Request) (auth : Conn AuthDatabase) where
    -- The request has a token that `validate_token` accepts for the account.
    pub record Authorized (account_id : Uuid) : Type 0 where
      pub token : List ℕ
      pub is_bearer : bearer_token request.authorization ≡ some token
      pub opened : draw.opens ≡ true
      pub valid : (validate_token lib.engine lib.bcrypt draw.now token account_id auth).0 ≡ ok true

    -- A new account is made without a token; every other message acts for one account.
    abbrev pub Permitted : ClientMessage → Type 0
    Permitted create_new_account = bearer_token request.authorization ≡ none
    Permitted (get_account account_id) = Authorized account_id
    Permitted get_accounts = ⊥
    Permitted (get_transactions account_id start end) = Authorized account_id
    Permitted (get_transaction account_id transaction_id) = Authorized account_id
    Permitted (create_transaction sender_id receiver_id amount) = Authorized sender_id

  abbrev auth_of : Conn World → Conn AuthDatabase
  auth_of c = record { db = c.db.auth; calls = c.calls }

  module _ (request : Request) (c : Conn World) where
    admit-Quiet :
        (account_id : Uuid) (token : List ℕ)
        → bearer_token request.authorization ≡ some token
        → draw.opens ≡ true
        → Quiet c.db.sent
            (λ _. Authorized request (auth_of c) account_id)
            (bind
              (in_auth (validate_token lib.engine lib.bcrypt draw.now token account_id) c)
              (λ valid. from_outcome (admit valid)))
    unfolding bind in_auth from_outcome
    admit-Quiet account_id token is_bearer opened =
        go (validate_token lib.engine lib.bcrypt draw.now token account_id (auth_of c))
          (λ h. record { token = token; is_bearer = is_bearer; opened = opened; valid = h })
      where
        go :
            (r : Outcome AuthError Bool × Conn AuthDatabase)
            → ((r.0 ≡ ok true) → Authorized request (auth_of c) account_id)
            → Quiet c.db.sent
                (λ _. Authorized request (auth_of c) account_id)
                (bind (in_auth (λ _. r) c) (λ valid. from_outcome (admit valid)))
        go (ok true, a) k = (refl, k refl)
        go (ok false, a) k = refl
        go (err e, a) k = refl
        go (panic, a) k = refl

    validate_token_response-Quiet :
        (account_id : Uuid)
        → Quiet c.db.sent
            (λ _. Authorized request (auth_of c) account_id)
            (validate_token_response lib draw request account_id c)
    unfolding validate_token_response
    validate_token_response-Quiet account_id =
        from_outcome-Quiet _
          (or_return (refusal 401 "Token required!") (bearer_token request.authorization)) c _
          λ token found. open_auth-Quiet _ draw c _ λ opened.
            admit-Quiet account_id token
              (or_return-ok (refusal 401 "Token required!") (bearer_token request.authorization)
                token found)
              opened

module _ (lib : Libraries) (draw : Draw) (request : Request) (c : Conn World) where
  abbrev Guards : Outcome Response Response × Conn World → Type 0
  Guards = Sends (Permitted lib draw request (auth_of lib draw c)) c.db.sent

  -- The rest of a handler, when the token is valid.
  validated_then :
      (account_id : Uuid) (f : Unit {0} → Handler Response)
      → ((c' : Conn World)
          → c'.db.sent ≡ c.db.sent
          → Authorized lib draw request (auth_of lib draw c) account_id
          → Guards (f tt c'))
      → Guards (bind (validate_token_response lib draw request account_id c) f)
  validated_then account_id f k =
      bind-Sends _ c.db.sent _ _ f (validate_token_response-Quiet lib draw request c account_id)
        (λ _ c' same authorized. k c' same authorized)

  get_account_handler-Guards : (s : List ℕ) → Guards (get_account_handler lib draw request s c)
  unfolding get_account_handler
  get_account_handler-Guards s = from_outcome-Sends _ c.db.sent _ c _ refl λ id _.
      validated_then id _ λ c' same authorized.
        send-Sends lib draw _ c.db.sent (get_account id) c' _ same authorized
          λ a. from_outcome-IsStill _ _ λ _ _. refl

  create_transaction_handler-Guards :
      (s : List ℕ) → Guards (create_transaction_handler lib draw request s c)
  unfolding create_transaction_handler
  create_transaction_handler-Guards s = from_outcome-Sends _ c.db.sent _ c _ refl λ id _.
      validated_then id _ λ c' same authorized.
        from_outcome-Sends _ c.db.sent _ c' _ same λ tx_request _.
          send-Sends lib draw _ c.db.sent
            (create_transaction id tx_request.receiver tx_request.amount) c' _ same authorized
            λ a. from_outcome-IsStill _ _ λ _ _. refl

  get_transaction_handler-Guards :
      (s t : List ℕ) → Guards (get_transaction_handler lib draw request s t c)
  unfolding get_transaction_handler
  get_transaction_handler-Guards s t = from_outcome-Sends _ c.db.sent _ c _ refl λ id _.
      from_outcome-Sends _ c.db.sent _ c _ refl λ transaction_id _.
        validated_then id _ λ c' same authorized.
          send-Sends lib draw _ c.db.sent (get_transaction id transaction_id) c' _ same authorized
            λ a. from_outcome-IsStill _ _ λ _ _. refl

  get_transactions_handler-Guards :
      (s : List ℕ) → Guards (get_transactions_handler lib draw request s c)
  unfolding get_transactions_handler
  get_transactions_handler-Guards s = from_outcome-Sends _ c.db.sent _ c _ refl λ id _.
      validated_then id _ λ c' same authorized.
        from_outcome-Sends _ c.db.sent _ c' _ same λ range _.
          send-Sends lib draw _ c.db.sent (get_transactions id range.0 range.1) c' _ same authorized
            λ a. from_outcome-IsStill _ _ λ _ _. refl

  create_account_handler-Guards : Guards (create_account_handler lib draw request c)
  unfolding create_account_handler
  create_account_handler-Guards =
      raise_if-Sends _ c.db.sent (is_some (bearer_token request.authorization)) _ c _ refl
        λ no_token.
          send-Sends lib draw _ c.db.sent create_new_account c _ refl
            (none_of_is_some (bearer_token request.authorization) no_token)
            λ sent. from_outcome-IsStill _ _ λ res.
              bind-IsStill (open_auth draw) _ (open_auth-IsStill draw) λ _.
                bind-IsStill (in_auth _) _ (in_auth-IsStill _)
                  λ _. from_outcome-IsStill _ _ λ _ _. refl

  -- One of two ways through the router.
  choice-Guards :
      (b : Bool) (first second : Handler Response)
      → Guards (first c)
      → Guards (second c)
      → Guards ((if b then first else second) c)
  choice-Guards true first second h k = h
  choice-Guards false first second h k = k

  get_route-Guards : (path : List (List ℕ)) → Guards (get_route lib draw request path c)
  get_route-Guards [] = inl refl
  get_route-Guards (word ∷ []) = inl refl
  get_route-Guards (word ∷ id ∷ []) =
      choice-Guards (same_text word account_word) _ _ (get_account_handler-Guards id) (inl refl)
  get_route-Guards (word ∷ id ∷ kind ∷ []) =
      choice-Guards (same_text word account_word && same_text kind transactions_word) _ _
        (get_transactions_handler-Guards id) (inl refl)
  get_route-Guards (word ∷ id ∷ kind ∷ transaction_id ∷ []) =
      choice-Guards (same_text word account_word && same_text kind transaction_word) _ _
        (get_transaction_handler-Guards id transaction_id) (inl refl)
  get_route-Guards (word ∷ id ∷ kind ∷ transaction_id ∷ more ∷ path) = inl refl

  post_route-Guards : (path : List (List ℕ)) → Guards (post_route lib draw request path c)
  post_route-Guards [] = inl refl
  post_route-Guards (word ∷ []) =
      choice-Guards (same_text word account_word) _ _ create_account_handler-Guards (inl refl)
  post_route-Guards (word ∷ id ∷ []) = inl refl
  post_route-Guards (word ∷ id ∷ kind ∷ []) =
      choice-Guards (same_text word account_word && same_text kind transaction_word) _ _
        (create_transaction_handler-Guards id) (inl refl)
  post_route-Guards (word ∷ id ∷ kind ∷ more ∷ path) = inl refl

-- Whatever request comes, and whatever fails, the gateway sends the core nothing or one message, and
-- one that acts for an account only if the request has a token that `validate_token` accepts for that
-- account (`Permitted`); a new account is made only for a request without a token.
pub router-Sends :
    (lib : Libraries) (draw : Draw) (request : Request) (c : Conn World)
    → Sends
        (Permitted lib draw request (record { db = c.db.auth; calls = c.calls }))
        c.db.sent
        (router lib draw request c)
unfolding router
router-Sends lib draw request c = go request.method
  where
    go : (m : Method) → Guards lib draw request c (route lib draw request m request.path c)
    go get = get_route-Guards lib draw request c request.path
    go post = post_route-Guards lib draw request c request.path
    go other = inl refl

-- What it takes for a request to be authorized, when its token is a text of ASCII characters: the
-- token is in hexadecimal digits, and the database has a row of the account whose hash it fits and
-- which has not expired.
pub Authorized-Means :
    (lib : Libraries) (draw : Draw) (request : Request) (auth : Conn AuthDatabase)
    (account_id : Uuid) (a : Authorized lib draw request auth account_id)
    → All (λ ch. ch < 128) a.token
    → (token : Token) × (rows : List AuthRow) × (from_hex_string a.token ≡ ok token)
      × (auth.db.auth ≡ some rows)
      × Means lib.bcrypt draw.now token true account_id rows
Authorized-Means lib draw request auth account_id a ascii =
    let run = validate_token lib.engine lib.bcrypt draw.now a.token account_id auth in
    let (kept, meaning) =
      Settles-ok auth.db _ run {c = run.1}
        (validate_token-Settles lib.engine lib.bcrypt draw.now a.token account_id auth ascii)
        (ap (λ r. (r, run.1)) a.valid) in
    meaning
