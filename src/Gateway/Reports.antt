-- ===== src/Gateway/Reports.antt =====
-- What a response of src/bin/client_gateway.rs says of the core (src/bin/core.rs) behind it.
use capycoin.Base.{◌≢◌, refl, inl, inr, ℕ, List, [], ◌∷◌, Bool, true, false, ◌&&◌, if◌then◌else◌}
use capycoin.Sqlite.{Outcome, Conn, pure}
use capycoin.Account.{seed_account_id}
use capycoin.Ledger.Consistent.{IsConsistent}
use capycoin.Gateway.{Method, get, post, other, Request, Response, World, Libraries, Draw, Handler}
use capycoin.Gateway.Handlers.{
  not_found, create_account_handler, get_account_handler, get_transactions_handler,
  create_transaction_handler, get_transaction_handler, get_route, post_route, route, router,
  same_text, account_word, transaction_word, transactions_word,
}
use capycoin.Gateway.Responds.{Responds}
use capycoin.Gateway.Sends.{Sends}
use capycoin.Gateway.Guarded.{Permitted, router-Sends}
use capycoin.Gateway.Tells.{
  Reports, get_account_handler-Reports, get_transactions_handler-Reports,
  create_transaction_handler-Reports, get_transaction_handler-Reports,
  create_account_handler-Reports,
}
use capycoin.Gateway.Asked.{CoreProcess, IsCore}

module _ (lib : Libraries) (draw : Draw) (core : CoreProcess) (request : Request)
    (is_core : IsCore lib draw core) (ready : IsConsistent core.con.db)
    (ne : core.fresh.id ≢ seed_account_id) (c : Conn World) where
  abbrev AnswersWith : Outcome Response Response × Conn World → Type 0
  AnswersWith =
      Responds (Reports lib draw core request (record { db = c.db.auth; calls = c.calls }))

  -- One of two ways through the router.
  choice-Reports :
      (b : Bool) (first : Handler Response)
      → AnswersWith (first c)
      → AnswersWith ((if b then first else pure not_found) c)
  choice-Reports true first h = h
  choice-Reports false first h = inl refl

  get_route-Reports : (path : List (List ℕ)) → AnswersWith (get_route lib draw request path c)
  get_route-Reports [] = inr (refl, tt)
  get_route-Reports (word ∷ []) = inl refl
  get_route-Reports (word ∷ id ∷ []) =
      choice-Reports (same_text word account_word) (get_account_handler lib draw request id)
        (get_account_handler-Reports lib draw core request is_core ready ne c id)
  get_route-Reports (word ∷ id ∷ kind ∷ []) =
      choice-Reports (same_text word account_word && same_text kind transactions_word)
        (get_transactions_handler lib draw request id)
        (get_transactions_handler-Reports lib draw core request is_core ready ne c id)
  get_route-Reports (word ∷ id ∷ kind ∷ transaction_id ∷ []) =
      choice-Reports (same_text word account_word && same_text kind transaction_word)
        (get_transaction_handler lib draw request id transaction_id)
        (get_transaction_handler-Reports lib draw core request is_core ready ne c id transaction_id)
  get_route-Reports (word ∷ id ∷ kind ∷ transaction_id ∷ more ∷ path) = inl refl

  post_route-Reports : (path : List (List ℕ)) → AnswersWith (post_route lib draw request path c)
  post_route-Reports [] = inl refl
  post_route-Reports (word ∷ []) =
      choice-Reports (same_text word account_word) (create_account_handler lib draw request)
        (create_account_handler-Reports lib draw core request is_core ready ne c)
  post_route-Reports (word ∷ id ∷ []) = inl refl
  post_route-Reports (word ∷ id ∷ kind ∷ []) =
      choice-Reports (same_text word account_word && same_text kind transaction_word)
        (create_transaction_handler lib draw request id)
        (create_transaction_handler-Reports lib draw core request is_core ready ne c id)
  post_route-Reports (word ∷ id ∷ kind ∷ more ∷ path) = inl refl

router_answers :
    (lib : Libraries) (draw : Draw) (core : CoreProcess) (request : Request) (c : Conn World)
    → IsCore lib draw core
    → IsConsistent core.con.db
    → core.fresh.id ≢ seed_account_id
    → Responds
        (Reports lib draw core request (record { db = c.db.auth; calls = c.calls }))
        (router lib draw request c)
unfolding router
router_answers lib draw core request c is_core ready ne = go request.method
  where
    go :
        (m : Method)
        → Responds
            (Reports lib draw core request (record { db = c.db.auth; calls = c.calls }))
            (route lib draw request m request.path c)
    go get = get_route-Reports lib draw core request is_core ready ne c request.path
    go post = post_route-Reports lib draw core request is_core ready ne c request.path
    go other = inl refl

-- What the gateway reports is so: for any request, when what comes back to it from the socket is what
-- the core answers on a database whose accounts and ledger agree, and fits into the client's buffer of a
-- mebibyte, the response is a refusal (400, 401 or 500), or it is `404`, or it is `200` and what its body
-- tells (`Tells`) the core has done or found for the last message that was sent: a receipt is of a payment
-- as the body of the request asks for it, that the core has saved, and accounts and transactions are as
-- they are stored. And whatever the response is, and also when the handling panics, at most one message
-- was sent to the core, and one that acts for an account only with a token that is accepted for that
-- account, a new account only for a request without a token (`Permitted`): nothing is paid twice, or
-- before the token was checked. The core draws no id that is the seed account's.
pub router-Reports :
    (lib : Libraries) (draw : Draw) (core : CoreProcess) (request : Request) (c : Conn World)
    → IsCore lib draw core
    → IsConsistent core.con.db
    → core.fresh.id ≢ seed_account_id
    → Responds
        (Reports lib draw core request (record { db = c.db.auth; calls = c.calls }))
        (router lib draw request c)
      × Sends
          (Permitted lib draw request (record { db = c.db.auth; calls = c.calls }))
          c.db.sent
          (router lib draw request c)
router-Reports lib draw core request c is_core ready ne =
    (router_answers lib draw core request c is_core ready ne, router-Sends lib draw request c)
