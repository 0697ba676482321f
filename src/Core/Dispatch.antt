-- ===== src/Core/Dispatch.antt =====
-- `message_dispatch` of src/bin/core.rs: what the response to a message says of the database.
use Prim.Native.String.{String}
use capycoin.Base.{◌≡◌, refl, ◌≢◌, ==_ne}
use capycoin.Base.Int.{pos}
use capycoin.Sqlite.{SqlError, Outcome, ok, err, panic, Engine, Conn, bind, pure}
use capycoin.Sqlite.Laws.{Settles}
use capycoin.Database.{Database}
use capycoin.Account.{new_account, seed_account_id}
use capycoin.Account.Save.{save_account-Settles}
use capycoin.Account.Query.{get_accounts-Settles, load_account-Settles}
use capycoin.Ledger.{new_transaction}
use capycoin.Ledger.Save.{save_transaction-Settles}
use capycoin.Ledger.Query.{get_transactions-Settles, get_transaction-Settles}
use capycoin.Ledger.Consistent.{IsConsistent, IsConsistent-IsCapped, opening, Inserted-IsConsistent}
use capycoin.Ledger.Reconcile.{Saved-IsConsistent}
use capycoin.Message.{
  IsTyped, Result, ServerError, ClientMessage, create_new_account, get_account, get_accounts,
  get_transactions, get_transaction, create_transaction, ClientMessagePacket, ServerMessage,
  create_new_account_response, get_account_response, get_accounts_response,
  get_transactions_response, get_transaction_response, create_transaction_response, with_error,
  from_account_error, from_transaction_error, as_resp_for, from_created, from_account,
  from_accounts, from_transactions, from_transaction, from_receipt,
}
use capycoin.Core.{AppError, Fresh, into, respond, message_dispatch}
use capycoin.Core.Answers.{Gives, Replies, Answers, Answers_keep}

module _ {E A : Type 0} (before : Database) (Q : A → Database → Type 0) where
  into-Gives :
      (respond_with : Result ServerError A → ServerMessage) (error : E → ServerError)
      (f : Result E A → ServerMessage) (r : Outcome E A × Conn Database)
      → ((res : Result E A) → f res ≡ respond_with (with_error error res))
      → Settles before Q r
      → Gives
          (λ resp after.
            (res : Result ServerError A) × (resp ≡ respond_with res) × Replies before Q res after)
          (into {F = AppError} f r)
  into-Gives respond_with error f (ok a, c) is_f h = (Result.ok a, is_f (Result.ok a), h)
  into-Gives respond_with error f (err e, c) is_f h = (Result.err (error e), is_f (Result.err e), h)
  into-Gives respond_with error f (panic, c) is_f h = h

module _ (engine : Engine) (debug_sql : SqlError → String) (fresh : Fresh) where
  respond-Answers :
      (m : ClientMessage) (c : Conn Database)
      → IsConsistent c.db
      → IsTyped m
      → Gives (Answers engine fresh c.db m) (respond engine debug_sql {F = AppError} fresh m c)
  unfolding respond new_account new_transaction from_created from_account from_accounts
      from_transactions from_transaction from_receipt
  respond-Answers create_new_account c ready typed =
      into-Gives c.db _ create_new_account_response (from_account_error debug_sql) _ _ (λ _. refl)
        (save_account-Settles engine fresh.now (new_account fresh.id fresh.made) c)
  respond-Answers (get_account account_id) c ready typed =
      into-Gives c.db _ get_account_response (from_account_error debug_sql) _ _ (λ _. refl)
        (load_account-Settles engine account_id c)
  respond-Answers get_accounts c ready typed =
      into-Gives c.db _ get_accounts_response (from_account_error debug_sql) _ _ (λ _. refl)
        (get_accounts-Settles engine c)
  respond-Answers (get_transactions account_id start end) c ready typed =
      into-Gives c.db _ get_transactions_response (from_transaction_error debug_sql) _ _ (λ _. refl)
        (get_transactions-Settles engine account_id start end c)
  respond-Answers (get_transaction account_id transaction_id) c ready typed =
      into-Gives c.db _ get_transaction_response (from_transaction_error debug_sql) _ _ (λ _. refl)
        (get_transaction-Settles engine account_id transaction_id c)
  respond-Answers (create_transaction sender_id receiver_id amount) c ready typed =
      into-Gives c.db _ create_transaction_response (from_transaction_error debug_sql) _ _
        (λ _. refl)
        (save_transaction-Settles engine fresh.now _ c (IsConsistent-IsCapped ready) typed refl)

module _ (engine : Engine) (fresh : Fresh) (before : Database) where
  created-funds :
      fresh.id ≢ seed_account_id → (new_account fresh.id fresh.made).funds ≡ opening fresh.id
  unfolding opening new_account
  created-funds ne = rw (==_ne fresh.id seed_account_id ne) refl

  Answers-IsConsistent :
      (m : ClientMessage) (resp : ServerMessage) (after : Database)
      → fresh.id ≢ seed_account_id
      → IsConsistent before
      → Answers engine fresh before m resp after
      → IsConsistent after
  unfolding new_account new_transaction
  Answers-IsConsistent m resp after ne ready =
      Answers_keep engine fresh before IsConsistent ready
        (λ after i. Inserted-IsConsistent _ i (created-funds ne) ready)
        (λ sender_id receiver_id amount receipt after saved. Saved-IsConsistent ready refl saved) m
        resp after

-- A message that is dispatched on a database whose accounts and ledger agree is answered, whatever
-- calls fail: the response is of version 1, has the message's id, and answers the message; and the
-- accounts and the ledger agree afterwards. The id that the call draws is not the seed account's.
pub message_dispatch-Answers :
    (engine : Engine) (debug_sql : SqlError → String) (fresh : Fresh) (packet : ClientMessagePacket)
    (c : Conn Database)
    → IsConsistent c.db
    → IsTyped packet.message
    → fresh.id ≢ seed_account_id
    → Gives
        (λ resp after.
          (resp.v ≡ pos 1)
          × (resp.message_id ≡ packet.message_id)
          × Answers engine fresh c.db packet.message resp.message after
          × IsConsistent after)
        (message_dispatch engine debug_sql {F = AppError} fresh packet c)
unfolding message_dispatch bind as_resp_for
message_dispatch-Answers engine debug_sql fresh packet c ready typed ne =
    go (respond engine debug_sql fresh packet.message c)
      (respond-Answers engine debug_sql fresh packet.message c ready typed)
  where
    go :
        (r : Outcome AppError ServerMessage × Conn Database)
        → Gives (Answers engine fresh c.db packet.message) r
        → Gives
            (λ resp after.
              (resp.v ≡ pos 1)
              × (resp.message_id ≡ packet.message_id)
              × Answers engine fresh c.db packet.message resp.message after
              × IsConsistent after)
            (bind {E = AppError} r (λ resp. pure (as_resp_for resp packet)))
    go (ok resp, c') h =
        (refl, refl, h, Answers-IsConsistent engine fresh c.db packet.message resp c'.db ne ready h)
    go (err e, c') h = absurd h
    go (panic, c') h = absurd h
