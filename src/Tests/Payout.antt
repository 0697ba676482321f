-- ===== src/Tests/Payout.antt =====
-- src/bin/stipend.rs with a core that lists one account and refuses its payment.
use capycoin.Base.{take, ℕ, ◌≡◌, refl, true, false, some, [], ◌∷◌, if◌then◌else◌}
use capycoin.Base.Int.{pos, ltb_ℤ}
use capycoin.Base.Utf8.{from_utf8, is_utf8, is_utf8_from, advance}
use capycoin.Sqlite.{ok, execute, Conn}
use capycoin.Message.{
  create_transaction, get_accounts, client_to_json, new_client_packet, server_from_json,
}
use capycoin.Account.{seed_account_id}
use capycoin.Client.{bind_socket, remove_socket, exchange, send_and_recv_msg}
use capycoin.Payout.{Draw, Sending, ask, pay, pay_all, stipend}
use capycoin.Payout.Ends.{Ends}
use capycoin.Payout.Paid.{Paid, Stopped, stipend-Ends}
use capycoin.Tests.Fixtures.{alice}
use capycoin.Tests.Codec.{codec}

-- In the text form of `Codec`, what is sent is read as a response when it comes back.
abbrev draw : ℕ → Draw
draw i = record {
  wire = record {
    refused = false;
    sets_timeout = true;
    sets_options = true;
    connects = true;
    sends = true;
    recv = λ sent. some sent;
  };
  address = record { pid = 1; ts = i };
  id = i;
}

abbrev nothing_sent : Conn Sending
nothing_sent = record { db = record { sockets = []; sent = [] }; calls = 2 }

one_payment : stipend codec draw (pos 10) (pos 50) nothing_sent ≡ (
  ok tt,
  record {
    db = record {
      sockets = [];
      sent = create_transaction seed_account_id alice (pos 50) ∷ get_accounts ∷ [];
    };
    calls = 4;
  },
)
unfolding execute stipend pay_all pay ask send_and_recv_msg exchange take bind_socket remove_socket
    client_to_json new_client_packet server_from_json from_utf8 is_utf8 is_utf8_from advance
one_payment = refl

stipend-Ends_example :
    Ends
      (λ _ l.
        if ltb_ℤ (pos 100) (pos 50)
        then l ≡ []
        else Paid codec draw (pos 10) (pos 50) nothing_sent l)
      (λ l.
        if ltb_ℤ (pos 100) (pos 50) then ⊥ else Stopped codec draw (pos 10) (pos 50) nothing_sent l)
      (stipend codec draw (pos 10) (pos 50) nothing_sent)
stipend-Ends_example = stipend-Ends codec draw (pos 10) (pos 50) nothing_sent
