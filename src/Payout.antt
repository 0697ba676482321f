-- ===== src/Payout.antt =====
-- src/bin/stipend.rs and src/bin/seed_tx.rs: programs that pay from the seed account.
pub mod Ends
pub mod Paid
use capycoin.Base.{ℕ, suc, Bool, Option, none, some, List, [], ◌∷◌, if◌then◌else◌, filter}
use capycoin.Base.Int.{ℤ, pos, ltb_ℤ, leb_ℤ}
use capycoin.Sqlite.{and_then, Outcome, ok, err, panic, Conn, Sql, ◌>>=◌, ◌>>◌, pure, from_outcome}
use capycoin.Database.{Uuid}
use capycoin.Account.{Account, seed_account_id}
use capycoin.Message.{
  Result, ClientMessage, get_accounts, create_transaction, ServerMessage, get_accounts_response,
  create_transaction_response, Json,
}
use capycoin.Client.{Address, Wire, expect_some, send_and_recv_msg}

-- What the system gives to one exchange.
pub record Draw : Type 0 where
  pub wire : Wire
  pub address : Address
  pub id : Uuid

-- The socket files, and the messages given to `send_and_recv_msg` so far, the last one first.
pub record Sending : Type 0 where
  pub sockets : List Address
  pub sent : List ClientMessage

abbrev pub Program : Type 0 → Type 0
Program A = Sql Sending (Unit {0}) A

-- `panic!` on another response than the one that is asked for.
abbrev pub accounts_of : ServerMessage → Outcome (Unit {0}) (List Account)
accounts_of (get_accounts_response (Result.ok r)) = ok r
accounts_of _ = panic

abbrev pub receipt_or_error : ServerMessage → Outcome (Unit {0}) (Unit {0})
receipt_or_error (create_transaction_response r) = ok tt
receipt_or_error _ = panic

abbrev pub payment : ℤ → Uuid → ClientMessage
payment amount id = create_transaction seed_account_id id amount

-- `a.funds <= minimum`
abbrev pub is_eligible : ℤ → Account → Bool
is_eligible minimum a = leb_ℤ a.funds minimum

-- The `i`-th exchange has the `i`-th draw.
module _ (json : Json) (draw : ℕ → Draw) where
  -- `send_and_recv_msg(msg).expect(…)`; the message is noted.
  unfoldable pub ask : ClientMessage → Program ServerMessage
  ask message c =
      let d = draw c.calls in
      let (r, c') =
        send_and_recv_msg json d.wire d.address d.id message
          (record { db = c.db.sockets; calls = c.calls }) in
      (
        and_then r expect_some,
        record { db = record { sockets = c'.db; sent = message ∷ c.db.sent }; calls = suc c.calls },
      )

  unfoldable pub pay : ℤ → Uuid → Program (Unit {0})
  pay amount id = do resp ← ask (payment amount id); from_outcome (receipt_or_error resp)

  -- `for acct in &accts`
  unfoldable pub pay_all : ℤ → List Account → Program (Unit {0})
  pay_all amount [] = pure tt
  pay_all amount (acct ∷ accts) = do pay amount acct.account_id; pay_all amount accts

  -- `main` of stipend.rs, from its two arguments.
  unfoldable pub stipend : ℤ → ℤ → Program (Unit {0})
  stipend minimum amount = if ltb_ℤ (pos 100) amount then pure tt else do
    resp ← ask get_accounts
    accts ← from_outcome (accounts_of resp)
    pay_all amount (filter (is_eligible minimum) accts)

  -- `main` of seed_tx.rs, from its two arguments.
  unfoldable pub seed_tx : Uuid → ℤ → Program (Unit {0})
  seed_tx rx_account amount = if ltb_ℤ (pos 100) amount then pure tt else pay amount rx_account
