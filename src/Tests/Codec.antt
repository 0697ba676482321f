-- ===== src/Tests/Codec.antt =====
-- A text form for some packets, in the place of `serde_json`: numbers are strokes, ended by a comma. A
-- client's request for a new account can be written, and its response; other texts that are read are a
-- payment of the seed account.
use mathlib.Core.Path.{subst}
use capycoin.Base.{
  ℕ, zero, suc, ◌≡◌, refl, Bool, true, false, Option, none, some, List, [], ◌∷◌, ◌==◌, ◌&&◌, arith,
  if◌then◌else◌, ◌∙◌, ap,
}
use capycoin.Base.Int.{ℤ, pos, negsuc, eqb_ℤ}
use capycoin.Base.Utf8.{is_utf8, is_utf8_from, between, advance}
use capycoin.Database.{Uuid, Time}
use capycoin.Account.{seed_account_id}
use capycoin.Message.{
  Result, ClientMessage, create_new_account, get_accounts, create_transaction,
  get_accounts_response, create_transaction_response, ClientMessagePacket, ServerMessage,
  create_new_account_response, ServerMessagePacket, Json, IsTyped,
}
use capycoin.Tests.Fixtures.{alice, alice_account}

-- The number `n`, before `s`.
abbrev pub strokes : ℕ → List ℕ → List ℕ
strokes zero s = b',' ∷ s
strokes (suc n) s = b'1' ∷ strokes n s

abbrev pub more : ℕ × List ℕ → ℕ × List ℕ
more (n, s) = (suc n, s)

abbrev pub read_strokes : List ℕ → ℕ × List ℕ
read_strokes [] = (0, [])
read_strokes (b ∷ s) = let rest = read_strokes s in if b == b',' then (0, s) else more rest

read_strokes-strokes : (n : ℕ) (s : List ℕ) → read_strokes (strokes n s) ≡ (n, s)
read_strokes-strokes zero s = refl
read_strokes-strokes (suc n) s = ap more (read_strokes-strokes n s)

strokes-is_utf8 : (n : ℕ) (s : List ℕ) → is_utf8_from between (strokes n s) ≡ is_utf8_from between s
unfolding is_utf8_from advance
strokes-is_utf8 zero s = refl
strokes-is_utf8 (suc n) s = strokes-is_utf8 n s

abbrev pub is_payment : Uuid → Uuid → ℤ → Bool
is_payment sender receiver amount =
    (sender == seed_account_id) && ((receiver == alice) && eqb_ℤ amount (pos 50))

abbrev pub client_text : ClientMessage → ℤ → Uuid → Option (List ℕ)
client_text create_new_account (pos v) id = if v == 1 then some (b'n' ∷ strokes id []) else none
client_text get_accounts (pos v) id = if v == 1 then some (b'l' ∷ strokes id []) else none
client_text (create_transaction sender receiver amount) (pos v) id =
    if (v == 1) && is_payment sender receiver amount then some (b'$' ∷ strokes id []) else none
client_text _ _ _ = none

abbrev pub packet : ClientMessage → Uuid → ClientMessagePacket
packet message id = record { v = pos 1; message_id = id; message = message }

abbrev pub payment_50 : ClientMessage
payment_50 = create_transaction seed_account_id alice (pos 50)

abbrev pub packet_of : Bool → Bool → Bool → Uuid → Option ClientMessagePacket
packet_of is_new is_list is_pay id =
    if is_new
    then some (packet create_new_account id)
    else if is_list
    then some (packet get_accounts id)
    else if is_pay
    then some (packet payment_50 id)
    else none

abbrev pub client_packet : List ℕ → Option ClientMessagePacket
client_packet [] = none
client_packet (b ∷ s) = packet_of (b == b'n') (b == b'l') (b == b'$') (read_strokes s).0

abbrev pub server_text : ServerMessage → ℤ → Uuid → Option (List ℕ)
server_text (create_new_account_response (Result.ok r)) (pos v) id =
    if v == 1 then some (strokes id (strokes r.account_id (strokes r.timestamp []))) else none
server_text _ _ _ = none

abbrev pub created_packet : Uuid → Uuid → Time → ServerMessagePacket
created_packet id account_id timestamp = record {
  v = pos 1;
  message_id = id;
  message =
      create_new_account_response
        (Result.ok (record { account_id = account_id; timestamp = timestamp }));
}

abbrev pub listed_packet : Uuid → ServerMessagePacket
listed_packet id = record {
  v = pos 1;
  message_id = id;
  message = get_accounts_response (Result.ok (alice_account ∷ []));
}

abbrev pub refused_packet : Uuid → ServerMessagePacket
refused_packet id = record {
  v = pos 1;
  message_id = id;
  message =
      create_transaction_response
        (Result.err (record { error_type = "TransactionError"; error_message = "" }));
}

abbrev pub read_created : List ℕ → ServerMessagePacket
read_created s =
    let first = read_strokes s in
    let second = read_strokes first.1 in
    let third = read_strokes second.1 in created_packet first.0 second.0 third.0

abbrev pub response_of : Bool → Bool → ℕ → List ℕ → ServerMessagePacket
response_of is_list is_pay b s =
    if is_list
    then listed_packet (read_strokes s).0
    else if is_pay
    then refused_packet (read_strokes s).0
    else read_created (b ∷ s)

abbrev pub server_packet : List ℕ → Option ServerMessagePacket
server_packet [] = none
server_packet (b ∷ s) = some (response_of (b == b'l') (b == b'$') b s)

-- A text that is written only at version 1.
if_version_1 :
    (v : ℕ) (t s : List ℕ) → (if v == 1 then some t else none) ≡ some s → (v ≡ 1) × (t ≡ s)
if_version_1 v t s e = (ground arith, ground arith)

strokes_packet :
    (b : ℕ) (id : Uuid)
    → client_packet (b ∷ strokes id []) ≡ packet_of (b == b'n') (b == b'l') (b == b'$') id
strokes_packet b id = rw (read_strokes-strokes id []) refl

if_payment :
    (v : ℕ) (sender receiver : Uuid) (amount : ℤ) (t s : List ℕ)
    → (if (v == 1) && is_payment sender receiver amount then some t else none) ≡ some s
    → (v ≡ 1) × (create_transaction sender receiver amount ≡ payment_50) × (t ≡ s)
if_payment v sender receiver amount t s e =
    let is_seed : sender ≡ seed_account_id = ground arith in
    let is_alice : receiver ≡ alice = ground arith in
    let is_50 : amount ≡ pos 50 = ground arith in
    (ground arith, rw (is_seed, is_alice, is_50) refl, ground arith)

pub client_text_reads :
    (m : ClientMessage) (v : ℤ) (id : Uuid) (s : List ℕ)
    → client_text m v id ≡ some s
    → client_packet s ≡ some (record { v = v; message_id = id; message = m })
client_text_reads create_new_account (pos v) id s e =
    let (one, same) = if_version_1 v (b'n' ∷ strokes id []) s e in
    rw (← same, one) (strokes_packet b'n' id)
client_text_reads get_accounts (pos v) id s e =
    let (one, same) = if_version_1 v (b'l' ∷ strokes id []) s e in
    rw (← same, one) (strokes_packet b'l' id)
client_text_reads (create_transaction sender receiver amount) (pos v) id s e =
    let (one, is_50, same) = if_payment v sender receiver amount (b'$' ∷ strokes id []) s e in
    rw (← same, one, is_50) (strokes_packet b'$' id)
client_text_reads create_new_account (negsuc v) id s e = cc
client_text_reads get_accounts (negsuc v) id s e = cc
client_text_reads (create_transaction sender receiver amount) (negsuc v) id s e = cc
client_text_reads _ v id s e = cc

pub client_text-is_utf8 :
    (m : ClientMessage) (v : ℤ) (id : Uuid) (s : List ℕ)
    → client_text m v id ≡ some s
    → is_utf8 s ≡ true
unfolding is_utf8 is_utf8_from advance
client_text-is_utf8 create_new_account (pos v) id s e =
    let (one, same) = if_version_1 v (b'n' ∷ strokes id []) s e in
    rw (← same) (strokes-is_utf8 id [])
client_text-is_utf8 get_accounts (pos v) id s e =
    let (one, same) = if_version_1 v (b'l' ∷ strokes id []) s e in
    rw (← same) (strokes-is_utf8 id [])
client_text-is_utf8 (create_transaction sender receiver amount) (pos v) id s e =
    let (one, is_50, same) = if_payment v sender receiver amount (b'$' ∷ strokes id []) s e in
    rw (← same) (strokes-is_utf8 id [])
client_text-is_utf8 create_new_account (negsuc v) id s e = cc
client_text-is_utf8 get_accounts (negsuc v) id s e = cc
client_text-is_utf8 (create_transaction sender receiver amount) (negsuc v) id s e = cc
client_text-is_utf8 _ v id s e = cc

abbrev IsTypedIf : Option ClientMessagePacket → Type 0
IsTypedIf none = Unit
IsTypedIf (some p) = IsTyped p.message

choice_typed :
    (is_new is_list is_pay : Bool) (id : Uuid) → IsTypedIf (packet_of is_new is_list is_pay id)
choice_typed true is_list is_pay id = tt
choice_typed false true is_pay id = tt
choice_typed false false true id = (omega arith, omega arith)
choice_typed false false false id = tt

pub client_packet-IsTyped :
    (s : List ℕ) (p : ClientMessagePacket) → client_packet s ≡ some p → IsTyped p.message
client_packet-IsTyped [] p e = cc
client_packet-IsTyped (b ∷ s) p e =
    subst IsTypedIf e (choice_typed (b == b'n') (b == b'l') (b == b'$') (read_strokes s).0)

-- A text that begins with a number is an answer to a request for an account.
created_read :
    (n : ℕ) (s : List ℕ) → server_packet (strokes n s) ≡ some (read_created (strokes n s))
created_read zero s = refl
created_read (suc n) s = refl

response_packet :
    (id account_id : Uuid) (timestamp : Time)
    → server_packet (strokes id (strokes account_id (strokes timestamp [])))
      ≡ some (created_packet id account_id timestamp)
response_packet id account_id timestamp =
    created_read id (strokes account_id (strokes timestamp []))
    ∙ rw
        (
          read_strokes-strokes id (strokes account_id (strokes timestamp [])),
          read_strokes-strokes account_id (strokes timestamp []),
          read_strokes-strokes timestamp [],
        )
        refl

pub server_text_reads :
    (m : ServerMessage) (v : ℤ) (id : Uuid) (s : List ℕ)
    → server_text m v id ≡ some s
    → server_packet s ≡ some (record { v = v; message_id = id; message = m })
server_text_reads (create_new_account_response (Result.ok r)) (pos v) id s e =
    let (one, same) =
      if_version_1 v (strokes id (strokes r.account_id (strokes r.timestamp []))) s e in
    rw (← same, one) (response_packet id r.account_id r.timestamp)
server_text_reads (create_new_account_response (Result.ok r)) (negsuc v) id s e = cc
server_text_reads _ v id s e = cc

pub server_text-is_utf8 :
    (m : ServerMessage) (v : ℤ) (id : Uuid) (s : List ℕ)
    → server_text m v id ≡ some s
    → is_utf8 s ≡ true
unfolding is_utf8 is_utf8_from
server_text-is_utf8 (create_new_account_response (Result.ok r)) (pos v) id s e =
    let (one, same) =
      if_version_1 v (strokes id (strokes r.account_id (strokes r.timestamp []))) s e in
    rw (← same) (
      strokes-is_utf8 id (strokes r.account_id (strokes r.timestamp []))
      ∙ (strokes-is_utf8 r.account_id (strokes r.timestamp []) ∙ strokes-is_utf8 r.timestamp []))
server_text-is_utf8 (create_new_account_response (Result.ok r)) (negsuc v) id s e = cc
server_text-is_utf8 _ v id s e = cc

abbrev pub codec : Json
codec = record {
  client_to_string = λ p. client_text p.message p.v p.message_id;
  client_from_str = client_packet;
  server_to_string = λ p. server_text p.message p.v p.message_id;
  server_from_str = server_packet;
  client_is_utf8 = λ p s e. client_text-is_utf8 p.message p.v p.message_id s e;
  server_is_utf8 = λ p s e. server_text-is_utf8 p.message p.v p.message_id s e;
  client_reads = λ p s e. client_text_reads p.message p.v p.message_id s e;
  server_reads = λ p s e. server_text_reads p.message p.v p.message_id s e;
  client_IsTyped = client_packet-IsTyped;
}
