-- ===== src/Core.antt =====
-- src/bin/core.rs: the process that owns the database and answers the messages of its clients.
pub mod Start
pub mod Answers
pub mod Dispatch
pub mod Handler
pub mod Reach
pub mod Exchange
pub mod Numbers
pub mod Extends
pub mod Bank
pub mod Server
use Prim.Native.String.{String}
use capycoin.Base.{ℕ, Option, none, some, List}
use capycoin.Base.Int.{pos}
use capycoin.Base.Utf8.{from_utf8}
use capycoin.Sqlite.{
  SqlError, Engine, Outcome, ok, err, panic, Conn, Sql, ◌>>=◌, ◌>>◌, pure, map_err, touch,
  from_outcome,
}
use capycoin.Database.{Uuid, Time, Database}
use capycoin.Account.{
  AccountError, new_account, create_seed_account, create_accounts_table, save_account, load_account,
}
use capycoin.Ledger.{TransactionError, new_transaction, create_ledger_table, save_transaction}
use capycoin.Message.{
  Result, ClientMessage, create_new_account, get_account, get_accounts, get_transactions,
  get_transaction, create_transaction, ClientMessagePacket, ServerMessage, ServerMessagePacket,
  as_resp_for, Json, client_from_json, server_to_json, from_created, from_account, from_accounts,
  from_transactions, from_transaction, from_receipt,
}
use capycoin.Account
use capycoin.Ledger

pub data AppError : Type 0 where
  ledger_error : TransactionError → AppError
  account_error : AccountError → AppError
  sql_error : SqlError → AppError
  socket_error general_error : AppError

-- What the system gives to the handling of one message: the random id that `Uuid::new_v4` draws, the
-- time at which an account or a transaction is made, and the time that is read while it is saved.
pub record Fresh : Type 0 where
  pub id : Uuid
  pub made : Time
  pub now : Time

-- `result.into()`: a result of either kind becomes a message; only a panic is passed on.
abbrev pub into :
    {E F A : Type 0}
    → (Result E A → ServerMessage)
    → Outcome E A × Conn Database
    → Outcome F ServerMessage × Conn Database
into f (ok a, c) = (ok (f (Result.ok a)), c)
into f (err e, c) = (ok (f (Result.err e)), c)
into f (panic, c) = (panic, c)

-- `match … { Ok(_) => (), Err(err) => eprintln!(…) }`
unfoldable pub ignore_error : {E F A : Type 0} → Sql Database E A → Sql Database F (Unit {0})
ignore_error m c =
    let (r, c') = m c in elim r [ ok a ↦ (ok tt, c') | err e ↦ (ok tt, c') | panic ↦ (panic, c') ]

-- An error that `From` makes a `GeneralError`.
abbrev pub or_general : {A : Type 0} → Option A → Outcome AppError A
or_general none = err general_error
or_general (some a) = ok a

-- `.expect(…)`
abbrev pub expect : {A : Type 0} → Option A → Outcome AppError A
expect none = panic
expect (some a) = ok a

module _ (engine : Engine) (debug_sql : SqlError → String) where
  -- The `match` of `message_dispatch`.
  unfoldable pub respond : {F : Type 0} → Fresh → ClientMessage → Sql Database F ServerMessage
  respond fresh create_new_account c =
      into (from_created debug_sql)
        (save_account engine fresh.now (new_account fresh.id fresh.made) c)
  respond fresh (get_account account_id) c =
      into (from_account debug_sql) (load_account engine account_id c)
  respond fresh get_accounts c = into (from_accounts debug_sql) (Account.get_accounts engine c)
  respond fresh (get_transactions account_id start end) c =
      into (from_transactions debug_sql) (Ledger.get_transactions engine account_id (start, end) c)
  respond fresh (get_transaction account_id transaction_id) c =
      into (from_transaction debug_sql) (Ledger.get_transaction engine account_id transaction_id c)
  respond fresh (create_transaction sender_id receiver_id amount) c =
      into (from_receipt debug_sql) (
        save_transaction engine fresh.now
          (new_transaction fresh.id fresh.made sender_id receiver_id amount (pos 0)) c)

  unfoldable pub message_dispatch :
      {F : Type 0} → Fresh → ClientMessagePacket → Sql Database F ServerMessagePacket
  message_dispatch fresh packet = do
    resp ← respond fresh packet.message
    pure (as_resp_for resp packet)

  module _ (json : Json) where
    abbrev pub reply : Fresh → Option ClientMessagePacket → Sql Database AppError (Option (List ℕ))
    reply fresh none = pure none
    reply fresh (some message) = do
      resp ← message_dispatch fresh message
      resp_json ← from_outcome (expect (server_to_json json resp))
      pure (some resp_json)

    -- The closure that `main` gives to `socket_server`: the bytes of a datagram, and those of the
    -- response, if there is one.
    unfoldable pub handler : Fresh → List ℕ → Sql Database AppError (Option (List ℕ))
    handler fresh msg = do
      command ← from_outcome (or_general (from_utf8 msg))
      reply fresh (client_from_json json command)

-- `main` up to its loop: the pragma and the two tables, where an error ends the process, and the seed
-- account, where it is only printed.
unfoldable pub start : Engine → Time → Sql Database AppError (Unit {0})
start engine now = do
  map_err sql_error (touch engine)
  map_err account_error (create_accounts_table engine)
  map_err ledger_error (create_ledger_table engine)
  ignore_error (save_account engine now create_seed_account)
