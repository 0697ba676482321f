-- ===== src/Gateway/Tells.antt =====
-- What the response of a handler of src/bin/client_gateway.rs says of the core (src/bin/core.rs) behind it.
use mathlib.Core.Path.{subst}
use capycoin.Base.{◌≡◌, ◌≢◌, refl, ◌⊎◌, inl, inr, Option, some, ℕ, List, arith, is_some}
use capycoin.Sqlite.{Outcome, ok, err, panic, Conn, bind, from_outcome, pure}
use capycoin.Database.{Uuid, Time}
use capycoin.Account.{AccountCreatedResult, seed_account_id}
use capycoin.Auth.{AuthDatabase, AuthError, TokenCreatedResult, create_token}
use capycoin.Ledger.Consistent.{IsConsistent}
use capycoin.Message.{
  Result, ClientMessage, ServerMessage, create_new_account, get_account, get_transactions,
  get_transaction, create_transaction, create_new_account_response, get_account_response,
  get_transactions_response, get_transaction_response, create_transaction_response,
}
use capycoin.Gateway.Token.{bearer_token}
use capycoin.Gateway.{
  Request, TransactionRequest, Body, root, created_account, account, transactions, transaction,
  receipt, Response, World, Libraries, Draw, in_auth, open_auth, created_of, account_of,
  transactions_of, receipt_of, transaction_of, token_of,
}
use capycoin.Gateway.Handlers.{
  send, success, not_found, create_account_handler, get_account_handler, get_transactions_handler,
  create_transaction_handler, get_transaction_handler, both,
}
use capycoin.Gateway.Responds.{
  IsRefusal, Responds, bind-Responds, from_outcome-Responds, or_return-Responds, raise_if-Responds,
  refusal_400, refusal_500, created_of-ok, created_of-err, account_of-ok, account_of-err,
  transactions_of-ok, transactions_of-err, receipt_of-ok, receipt_of-err, transaction_of-ok,
  transaction_of-err,
}
use capycoin.Gateway.Guarded.{Authorized}
use capycoin.Gateway.Asked.{CoreProcess, IsCore, Asks, send-Asks, validate_token_response-Responds}

module _ (lib : Libraries) (draw : Draw) (core : CoreProcess) (request : Request)
    (auth : Conn AuthDatabase) where
  -- What a response tells with its body, given the messages that have been sent. Of an account it tells
  -- only with a token of the account.
  abbrev pub Tells : Body → List ClientMessage → Type 0
  Tells root sent = Unit
  Tells (created_account account_id token expiry) sent =
      (made : AccountCreatedResult) × (made.account_id ≡ account_id)
      × Asks lib draw core create_new_account (some (create_new_account_response (Result.ok made)))
          sent
      × ((c : Conn AuthDatabase) × (t : TokenCreatedResult) × ((create_token lib.engine lib.bcrypt
              draw.random draw.salt draw.now account_id c).0
            ≡ ok t)
          × (t.token ≡ token)
          × (t.expiry ≡ expiry))
  Tells (account a) sent =
      (account_id : Uuid) × Authorized lib draw request auth account_id
      × Asks lib draw core (get_account account_id) (some (get_account_response (Result.ok a))) sent
  Tells (transactions account_id txs) sent =
      (start : Time) × (end : Time) × Authorized lib draw request auth account_id
      × Asks lib draw core (get_transactions account_id start end)
          (some (get_transactions_response (Result.ok txs))) sent
  Tells (transaction t) sent =
      (account_id : Uuid) × (transaction_id : Uuid) × Authorized lib draw request auth account_id
      × Asks lib draw core (get_transaction account_id transaction_id)
          (some (get_transaction_response (Result.ok t))) sent
  Tells (receipt r) sent =
      (account_id : Uuid) × (tx : TransactionRequest) × (request.json_input ≡ some tx)
      × Authorized lib draw request auth account_id
      × Asks lib draw core (create_transaction account_id tx.receiver tx.amount)
          (some (create_transaction_response (Result.ok r))) sent
  Tells _ sent = ⊥

  -- A response that ends a handler.
  abbrev pub Reports : Response → List ClientMessage → Type 0
  Reports resp sent = (resp ≡ not_found) ⊎ ((resp.status ≡ 200) × Tells resp.body sent)

module _ (lib : Libraries) (draw : Draw) (core : CoreProcess) (request : Request)
    (is_core : IsCore lib draw core) (ready : IsConsistent core.con.db)
    (ne : core.fresh.id ≢ seed_account_id) (c : Conn World) where
  abbrev pub auth : Conn AuthDatabase
  auth = record { db = c.db.auth; calls = c.calls }

  abbrev pub AnswersWith : Outcome Response Response × Conn World → Type 0
  AnswersWith = Responds (Reports lib draw core request auth)

  -- A message is sent, and a value that the core answers with ends the handler.
  send_then :
      {A : Type 0} (m : ClientMessage) (of : Option ServerMessage → Outcome Response A)
      (resp : A → ServerMessage) (body : A → Body) (c' : Conn World)
      → ((o : Option ServerMessage) (e : Response) → of o ≡ err e → IsRefusal e)
      → ((o : Option ServerMessage) (a : A) → of o ≡ ok a → o ≡ some (resp a))
      → ((a : A) (sent : List ClientMessage)
          → Asks lib draw core m (some (resp a)) sent
          → Tells lib draw core request auth (body a) sent)
      → AnswersWith (
          bind
            (send lib draw m c')
            (λ o c''. bind (from_outcome (of o) c'') (λ a. pure (success (body a)))))
  send_then m of resp body c' refuses gives tells =
      bind-Responds _ (Asks lib draw core m) _ _ (send-Asks lib draw core is_core ready ne m c')
        λ o c'' asks. from_outcome-Responds _ (of o) c'' _ (refuses o) λ a is_a. inr (
          refl,
          tells a c''.db.sent
              (subst (λ o. Asks lib draw core m o c''.db.sent) (gives o a is_a) asks),
        )

  pub create_transaction_handler-Reports :
      (s : List ℕ) → AnswersWith (create_transaction_handler lib draw request s c)
  unfolding create_transaction_handler
  create_transaction_handler-Reports s =
      or_return-Responds _ _ (lib.parse_uuid s) c _ (refusal_400 _) λ account_id _.
        bind-Responds _ _ _ _ (validate_token_response-Responds lib draw core request c account_id)
          λ _ c₁ authorized.
            or_return-Responds _ _ request.json_input c₁ _ (refusal_400 _) λ tx is_tx.
              send_then (create_transaction account_id tx.receiver tx.amount) receipt_of
                (λ r. create_transaction_response (Result.ok r)) (λ r. receipt r) c₁ receipt_of-err
                receipt_of-ok λ r _ asked. (account_id, tx, is_tx, authorized, asked)

  pub get_account_handler-Reports :
      (s : List ℕ) → AnswersWith (get_account_handler lib draw request s c)
  unfolding get_account_handler
  get_account_handler-Reports s =
      or_return-Responds _ _ (lib.parse_uuid s) c _ (refusal_400 _) λ account_id _.
        bind-Responds _ _ _ _ (validate_token_response-Responds lib draw core request c account_id)
          λ _ c₁ authorized.
            send_then (get_account account_id) account_of (λ a. get_account_response (Result.ok a))
              (λ a. account a) c₁ account_of-err account_of-ok
              λ a _ asked. (account_id, authorized, asked)

  pub get_transaction_handler-Reports :
      (s t : List ℕ) → AnswersWith (get_transaction_handler lib draw request s t c)
  unfolding get_transaction_handler
  get_transaction_handler-Reports s t =
      or_return-Responds _ _ (lib.parse_uuid s) c _ (refusal_400 _) λ account_id _.
        or_return-Responds _ _ (lib.parse_uuid t) c _ (refusal_400 _) λ transaction_id _.
          bind-Responds _ _ _ _
            (validate_token_response-Responds lib draw core request c account_id)
            λ _ c₁ authorized.
              send_then (get_transaction account_id transaction_id) transaction_of
                (λ t. get_transaction_response (Result.ok t)) (λ t. transaction t) c₁
                transaction_of-err transaction_of-ok
                λ t _ asked. (account_id, transaction_id, authorized, asked)

  both-err :
      (start end : Option Time) (e : Response)
      → both lib draw request start end ≡ err e
      → IsRefusal e
  both-err start end e h = ground arith

  pub get_transactions_handler-Reports :
      (s : List ℕ) → AnswersWith (get_transactions_handler lib draw request s c)
  unfolding get_transactions_handler
  get_transactions_handler-Reports s =
      or_return-Responds _ _ (lib.parse_uuid s) c _ (inl refl) λ account_id _.
        bind-Responds _ _ _ _ (validate_token_response-Responds lib draw core request c account_id)
          λ _ c₁ authorized. from_outcome-Responds _ _ c₁ _ (both-err _ _) λ range _.
            send_then (get_transactions account_id range.0 range.1) transactions_of
              (λ r. get_transactions_response (Result.ok r)) (λ r. transactions account_id r) c₁
              transactions_of-err transactions_of-ok
              λ r _ asked. (range.0, range.1, authorized, asked)

  -- The token of a new account.
  token-Reports :
      (made : AccountCreatedResult) (c' : Conn World)
      → Asks lib draw core create_new_account
          (some (create_new_account_response (Result.ok made)))
          c'.db.sent
      → AnswersWith (
          bind
            (in_auth
              (create_token lib.engine lib.bcrypt draw.random draw.salt draw.now made.account_id)
              c')
            (λ created c''.
              bind (from_outcome (token_of lib.debug_sql created) c'') (λ token.
                pure (success (created_account made.account_id token.token token.expiry)))))
  unfolding bind in_auth from_outcome
  token-Reports made c' asked =
      go
        (create_token lib.engine lib.bcrypt draw.random draw.salt draw.now made.account_id
          (record { db = c'.db.auth; calls = c'.calls }))
        (λ t e.
          (made, refl, asked, (record { db = c'.db.auth; calls = c'.calls }, t, e, refl, refl)))
    where
      go :
          (r : Outcome AuthError TokenCreatedResult × Conn AuthDatabase)
          → ((t : TokenCreatedResult)
              → r.0 ≡ ok t
              → Tells lib draw core request auth
                  (created_account made.account_id t.token t.expiry)
                  c'.db.sent)
          → AnswersWith (
              bind (in_auth (λ _. r) c') (λ created c''.
                bind (from_outcome (token_of lib.debug_sql created) c'') (λ token.
                  pure (success (created_account made.account_id token.token token.expiry)))))
      go (ok t, a) k = inr (refl, k t refl)
      go (err e, a) k = inr (inr refl)
      go (panic, a) k = tt

  pub create_account_handler-Reports : AnswersWith (create_account_handler lib draw request c)
  unfolding create_account_handler open_auth
  create_account_handler-Reports =
      raise_if-Responds _ (is_some (bearer_token request.authorization)) _ c _ (refusal_400 _) λ _.
        bind-Responds _ (Asks lib draw core create_new_account) _ _
          (send-Asks lib draw core is_core ready ne create_new_account c)
          λ o c₁ asks.
            from_outcome-Responds _ (created_of o) c₁ _ (created_of-err o) λ made is_made.
              raise_if-Responds _ _ _ c₁ _ (refusal_500 _) λ _. token-Reports made c₁ (
                subst (λ o. Asks lib draw core create_new_account o c₁.db.sent)
                  (created_of-ok o made is_made) asks)
