-- ===== src/Gateway/Life/Served.antt =====
-- What a request that src/bin/client_gateway.rs serves leaves in the table of tokens.
use mathlib.Core.List.{Mem}
use capycoin.Base.{
  ℕ, ◌≡◌, ◌∙◌, ap, refl, Bool, Option, none, List, [], ◌∷◌, ◌&&◌, is_some, if◌then◌else◌,
}
use capycoin.Sqlite.{ok, Conn, bind, from_outcome}
use capycoin.Sqlite.Keeps.{if-Kept}
use capycoin.Database.{Uuid}
use capycoin.Account.{AccountCreatedResult}
use capycoin.Auth.{create_token, validate_token}
use capycoin.Message.{
  ServerMessage, create_new_account, get_account, get_transactions, get_transaction,
  create_transaction,
}
use capycoin.Gateway.Token.{bearer_token}
use capycoin.Gateway.{
  Method, get, post, other, Request, Response, World, Libraries, Draw, refusal, Handler, or_return,
  in_auth, created_of, account_of, transactions_of, receipt_of, transaction_of, token_of,
}
use capycoin.Gateway.Handlers.{
  send, create_account_handler, validate_token_response, get_account_handler,
  get_transactions_handler, create_transaction_handler, get_transaction_handler, get_route,
  post_route, route, router, same_text, account_word, transaction_word, transactions_word,
}
use capycoin.Gateway.Sends.{none_of_is_some}
use capycoin.Gateway.Life.{Visit}
use capycoin.Gateway.Life.Issues.{Stored, create_token-Stored, validate_token-Kept}
use capycoin.Gateway.Life.Stands.{
  created_of-ok, step_then, value_then, send-Stands, in_auth-Stands, open_auth-Stands,
  raise_if_then, asked_then, Stands,
}

module _ (lib : Libraries) (log : List Visit) (draw : Draw) where
  -- The token of an account that the core has just made.
  issue-Stands :
      (request : Request) (asked : Conn World) (res : AccountCreatedResult)
      (sent : Option ServerMessage) (c : Conn World)
      → Mem (record { draw = draw; request = request; world = asked }) log
      → bearer_token request.authorization ≡ none
      → (send lib draw create_new_account asked).0 ≡ ok sent
      → created_of sent ≡ ok res
      → Stored lib log c.db.auth
      → Stands lib log draw (
          in_auth
            (create_token lib.engine lib.bcrypt draw.random draw.salt draw.now res.account_id)
            c)
  issue-Stands request asked res sent c logged no_token answered created h =
      in_auth-Stands lib log draw
        (create_token lib.engine lib.bcrypt draw.random draw.salt draw.now res.account_id) c
        (create_token-Stored lib log draw.random draw.salt draw.now res.account_id _ h
          λ hash hashed. record {
            visit = record { draw = draw; request = request; world = asked };
            logged = logged;
            no_token = no_token;
            result = res;
            created = answered ∙ ap (λ m. ok m) (created_of-ok sent res created);
            owner = refl;
            hashed = hashed;
            expires = refl;
          })

  module _ (request : Request) where
    create_account_handler-Stands :
        (c : Conn World)
        → Mem (record { draw = draw; request = request; world = c }) log
        → Stored lib log c.db.auth
        → Stands lib log draw (create_account_handler lib draw request c)
    unfolding create_account_handler
    create_account_handler-Stands c logged h =
        raise_if_then lib log draw (is_some (bearer_token request.authorization)) _ c _ h
          λ no_token.
            let asked = send-Stands lib log draw create_new_account c h in
            step_then lib log draw _ _ asked λ sent answered.
              value_then lib log draw (created_of sent) _ _ asked λ res created.
                let opened = open_auth-Stands lib log draw _ asked in
                step_then lib log draw _ _ opened λ _ _.
                  let issued =
                    issue-Stands request c res sent _ logged
                      (none_of_is_some (bearer_token request.authorization) no_token) answered
                      created opened in
                  step_then lib log draw _ _ issued λ token _.
                    value_then lib log draw (token_of lib.debug_sql token) _ _ issued λ _ _. issued

    validate_token_response-Stands :
        (account_id : Uuid) (c : Conn World)
        → Stored lib log c.db.auth
        → Stands lib log draw (validate_token_response lib draw request account_id c)
    unfolding validate_token_response from_outcome
    validate_token_response-Stands account_id c h =
        value_then lib log draw
          (or_return (refusal 401 "Token required!") (bearer_token request.authorization)) c _ h
          λ token _.
            let opened = open_auth-Stands lib log draw c h in
            step_then lib log draw _ _ opened λ _ _.
              let checked =
                validate_token-Kept (Stored lib log) lib.engine lib.bcrypt draw.now token account_id
                  _ opened in
              let valid =
                in_auth-Stands lib log draw
                  (validate_token lib.engine lib.bcrypt draw.now token account_id) _ checked in
              step_then lib log draw _ _ valid λ _ _. valid

    -- The rest of a handler, after the check of the token.
    validated_then :
        (account_id : Uuid) (c : Conn World) (f : Unit {0} → Handler Response)
        → Stored lib log c.db.auth
        → ((c : Conn World) → Stored lib log c.db.auth → Stands lib log draw (f tt c))
        → Stands lib log draw (bind (validate_token_response lib draw request account_id c) f)
    validated_then account_id c f h k =
        let checked = validate_token_response-Stands account_id c h in
        step_then lib log draw _ f checked λ _ _. k _ checked

    module _ (c : Conn World)
        (logged : Mem (record { draw = draw; request = request; world = c }) log)
        (h : Stored lib log c.db.auth) where
      get_account_handler-Stands :
          (s : List ℕ) → Stands lib log draw (get_account_handler lib draw request s c)
      unfolding get_account_handler
      get_account_handler-Stands s = value_then lib log draw _ c _ h λ id _.
          validated_then id c _ h
            λ c' h'. asked_then lib log draw (get_account id) account_of c' _ h' λ _ _ k. k

      get_transactions_handler-Stands :
          (s : List ℕ) → Stands lib log draw (get_transactions_handler lib draw request s c)
      unfolding get_transactions_handler
      get_transactions_handler-Stands s = value_then lib log draw _ c _ h λ id _.
          validated_then id c _ h λ c' h'. value_then lib log draw _ c' _ h' λ range _.
            asked_then lib log draw (get_transactions id range.0 range.1) transactions_of c' _ h'
              λ _ _ k. k

      create_transaction_handler-Stands :
          (s : List ℕ) → Stands lib log draw (create_transaction_handler lib draw request s c)
      unfolding create_transaction_handler
      create_transaction_handler-Stands s = value_then lib log draw _ c _ h λ id _.
          validated_then id c _ h λ c' h'. value_then lib log draw _ c' _ h' λ tx_request _.
            asked_then lib log draw (create_transaction id tx_request.receiver tx_request.amount)
              receipt_of c' _ h' λ _ _ k. k

      get_transaction_handler-Stands :
          (s t : List ℕ) → Stands lib log draw (get_transaction_handler lib draw request s t c)
      unfolding get_transaction_handler
      get_transaction_handler-Stands s t = value_then lib log draw _ c _ h λ id _.
          value_then lib log draw _ c _ h λ transaction_id _. validated_then id c _ h λ c' h'.
            asked_then lib log draw (get_transaction id transaction_id) transaction_of c' _ h'
              λ _ _ k. k

      choice :
          (b : Bool) (first second : Handler Response)
          → Stands lib log draw (first c)
          → Stands lib log draw (second c)
          → Stands lib log draw ((if◌then◌else◌ {A = Handler Response} b first second) c)
      choice b first second = if-Kept (λ (w : World). Stored lib log w.auth) b first second c

      get_route-Stands :
          (path : List (List ℕ)) → Stands lib log draw (get_route lib draw request path c)
      get_route-Stands [] = h
      get_route-Stands (word ∷ []) = h
      get_route-Stands (word ∷ id ∷ []) =
          choice (same_text word account_word) _ _ (get_account_handler-Stands id) h
      get_route-Stands (word ∷ id ∷ kind ∷ []) =
          choice (same_text word account_word && same_text kind transactions_word) _ _
            (get_transactions_handler-Stands id) h
      get_route-Stands (word ∷ id ∷ kind ∷ transaction_id ∷ []) =
          choice (same_text word account_word && same_text kind transaction_word) _ _
            (get_transaction_handler-Stands id transaction_id) h
      get_route-Stands (word ∷ id ∷ kind ∷ transaction_id ∷ more ∷ path) = h

      post_route-Stands :
          (path : List (List ℕ)) → Stands lib log draw (post_route lib draw request path c)
      post_route-Stands [] = h
      post_route-Stands (word ∷ []) =
          choice (same_text word account_word) _ _ (create_account_handler-Stands c logged h) h
      post_route-Stands (word ∷ id ∷ []) = h
      post_route-Stands (word ∷ id ∷ kind ∷ []) =
          choice (same_text word account_word && same_text kind transaction_word) _ _
            (create_transaction_handler-Stands id) h
      post_route-Stands (word ∷ id ∷ kind ∷ more ∷ path) = h

      pub router-Stands : Stands lib log draw (router lib draw request c)
      unfolding router
      router-Stands = go request.method
        where
          go : (m : Method) → Stands lib log draw (route lib draw request m request.path c)
          go get = get_route-Stands request.path
          go post = post_route-Stands request.path
          go other = h
