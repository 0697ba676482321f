-- ===== src/Core/Answers.antt =====
-- What the response that `message_dispatch` of src/bin/core.rs gives says of the database.
use mathlib.Core.List.{Perm}
use mathlib.Core.Path.{subst}
use capycoin.Base.{sym, ◌≡◌, ◌⊎◌, some, List, filter, map}
use capycoin.Base.Int.{ℤ, pos}
use capycoin.Sqlite.{Outcome, ok, err, panic, Engine, Conn}
use capycoin.Database.{Uuid, AccountRow, Transaction, Database}
use capycoin.Account.{AccountCreatedResult, Account, row_of, new_account}
use capycoin.Account.Table.{find_account}
use capycoin.Account.Save.{Inserted}
use capycoin.Ledger.{TransactionReceipt, new_transaction, find_transaction, selects}
use capycoin.Ledger.Save.{Saved}
use capycoin.Message.{
  Result, ServerError, ClientMessage, create_new_account, get_account, get_accounts,
  get_transactions, get_transaction, create_transaction, ServerMessage, create_new_account_response,
  get_account_response, get_accounts_response, get_transactions_response, get_transaction_response,
  create_transaction_response,
}
use capycoin.Core.{Fresh}

-- The call returned a value that meets `Q`.
abbrev pub Gives : {D E A : Type 0} → (A → D → Type 0) → Outcome E A × Conn D → Type 0
Gives Q (ok a, c) = Q a c.db
Gives Q (err e, c) = ⊥
Gives Q (panic, c) = ⊥

-- A response with a value meets `Q`; one with an error says that nothing has changed.
abbrev pub Replies :
    {E A : Type 0} → Database → (A → Database → Type 0) → Result E A → Database → Type 0
Replies before Q (Result.ok a) after = Q a after
Replies before Q (Result.err e) after = after ≡ before

module _ (engine : Engine) (fresh : Fresh) (before : Database) where
  abbrev pub IsCreated : AccountCreatedResult → Database → Type 0
  IsCreated res after =
      (res ≡ record { account_id = fresh.id; timestamp = fresh.now })
      × Inserted (new_account fresh.id fresh.made) before after

  abbrev pub IsLoaded : Uuid → Account → Database → Type 0
  IsLoaded id a after =
      (after ≡ before)
      × ((rows : List AccountRow) × (before.accounts ≡ some rows)
          × (find_account id rows ≡ some (row_of a)))

  abbrev pub IsListed : List Account → Database → Type 0
  IsListed res after =
      (after ≡ before)
      × ((rows : List AccountRow) × (before.accounts ≡ some rows) × Perm (map row_of res) rows)

  -- The answer to a message is of the message's kind, and says what is in the database or what has
  -- been done to it.
  abbrev pub Answers : ClientMessage → ServerMessage → Database → Type 0
  Answers create_new_account resp after =
      (r : Result ServerError AccountCreatedResult) × (resp ≡ create_new_account_response r)
      × Replies before IsCreated r after
  Answers (get_account account_id) resp after =
      (r : Result ServerError Account) × (resp ≡ get_account_response r)
      × Replies before (IsLoaded account_id) r after
  Answers get_accounts resp after =
      (r : Result ServerError (List Account)) × (resp ≡ get_accounts_response r)
      × Replies before IsListed r after
  Answers (get_transactions account_id start end) resp after =
      (r : Result ServerError (List Transaction)) × (resp ≡ get_transactions_response r)
      × Replies before
          (λ res after.
            (after ≡ before)
            × ((txs : List Transaction) × (before.transactions ≡ some txs)
                × Perm res (filter (selects engine account_id start end) txs)))
          r after
  Answers (get_transaction account_id transaction_id) resp after =
      (r : Result ServerError Transaction) × (resp ≡ get_transaction_response r)
      × Replies before
          (λ t after.
            (after ≡ before)
            × ((txs : List Transaction) × (before.transactions ≡ some txs)
                × (find_transaction transaction_id txs ≡ some t))
            × ((t.sender_account_id ≡ account_id) ⊎ (t.receiver_account_id ≡ account_id)))
          r after
  Answers (create_transaction sender_id receiver_id amount) resp after =
      (r : Result ServerError TransactionReceipt) × (resp ≡ create_transaction_response r)
      × Replies before
          (λ receipt after.
            Saved fresh.now
              (new_transaction fresh.id fresh.made sender_id receiver_id amount (pos 0)) receipt
              before after)
          r after

  -- What an answer has done to the database: nothing, or it has inserted the new account, or saved the
  -- transaction.
  module _ (Property : Database → Type 0) (holds : Property before)
      (inserted : (after : Database)
        → Inserted (new_account fresh.id fresh.made) before after
        → Property after)
      (saved : (sender_id receiver_id : Uuid) (amount : ℤ) (receipt : TransactionReceipt)
          (after : Database)
        → Saved fresh.now
            (new_transaction fresh.id fresh.made sender_id receiver_id amount (pos 0))
            receipt
            before
            after
        → Property after) where
    Replies_keep :
        {A : Type 0} (Q : A → Database → Type 0) (r : Result ServerError A) (after : Database)
        → ((a : A) → Q a after → Property after)
        → Replies before Q r after
        → Property after
    Replies_keep Q (Result.ok a) after keeps h = keeps a h
    Replies_keep Q (Result.err e) after keeps same = subst Property (sym same) holds

    pub Answers_keep :
        (m : ClientMessage) (resp : ServerMessage) (after : Database)
        → Answers m resp after
        → Property after
    Answers_keep create_new_account resp after (r, is_r, h) =
        Replies_keep _ r after (λ a (_, i). inserted after i) h
    Answers_keep (get_account account_id) resp after (r, is_r, h) =
        Replies_keep _ r after (λ a (same, _). subst Property (sym same) holds) h
    Answers_keep get_accounts resp after (r, is_r, h) =
        Replies_keep _ r after (λ a (same, _). subst Property (sym same) holds) h
    Answers_keep (get_transactions account_id start end) resp after (r, is_r, h) =
        Replies_keep _ r after (λ a (same, _). subst Property (sym same) holds) h
    Answers_keep (get_transaction account_id transaction_id) resp after (r, is_r, h) =
        Replies_keep _ r after (λ a (same, _, _). subst Property (sym same) holds) h
    Answers_keep (create_transaction sender_id receiver_id amount) resp after (r, is_r, h) =
        Replies_keep _ r after (λ a i. saved sender_id receiver_id amount a after i) h
