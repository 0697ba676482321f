-- ===== src/Client.antt =====
-- src/client_util.rs: the client's side of an exchange with the core, over a datagram socket of its own.
pub mod Exchange
use capycoin.Base.{
  ℕ, Bool, true, false, Option, none, some, List, [], ◌∷◌, ◌==◌, ◌&&◌, ◌||◌, not, if◌then◌else◌,
  filter, take, ◌*◌,
}
use capycoin.Base.Utf8.{from_utf8}
use capycoin.Database.{Uuid}
use capycoin.Sqlite.{
  Outcome, ok, err, panic, Conn, Sql, ◌>>=◌, ◌>>◌, pure, throw, from_outcome, raise_if, assert,
}
use capycoin.Message.{
  ClientMessage, ServerMessage, ServerMessagePacket, new_client_packet, Json, client_to_json,
  server_from_json,
}

-- A path `/tmp/capycoin-client.{pid}.{ts}`
pub record Address : Type 0 where
  pub pid : ℕ
  pub ts : ℕ

abbrev pub same_address : Address → Address → Bool
same_address a b = (a.pid == b.pid) && (a.ts == b.ts)

abbrev pub mem_address : Address → List Address → Bool
mem_address a [] = false
mem_address a (b ∷ sockets) = same_address a b || mem_address a sockets

-- What the system does with the calls of one exchange: whether `bind` is refused at a free path, whether
-- `set_read_timeout` and `setsockopt` succeed, whether the core's socket can be connected to, whether the
-- send succeeds, and the datagram that comes back for the one that is sent, within the second that is
-- waited.
pub record Wire : Type 0 where
  pub refused : Bool
  pub sets_timeout : Bool
  pub sets_options : Bool
  pub connects : Bool
  pub sends : Bool
  pub recv : List ℕ → Option (List ℕ)

-- The socket files in `/tmp`, as the state of a run; an error is the `return None` of the code.
abbrev pub Files : Type 0 → Type 0
Files A = Sql (List Address) (Unit {0}) A

-- `UnixDatagram::bind` makes the file, and fails if it is there.
unfoldable pub bind_socket : Wire → Address → Files (Unit {0})
bind_socket wire address c =
    if mem_address address c.db || wire.refused
    then (err tt, c)
    else (ok tt, record c { db = address ∷ c.db })

-- `fs::remove_file`; an error is only printed.
unfoldable pub remove_socket : Address → Files (Unit {0})
remove_socket address c = (ok tt, record c { db = filter (λ b. not (same_address address b)) c.db })

-- `.expect(…)` of a value.
abbrev pub expect_some : {A : Type 0} → Option A → Outcome (Unit {0}) A
expect_some none = panic
expect_some (some a) = ok a

abbrev pub or_return : {A : Type 0} → Option A → Outcome (Unit {0}) A
or_return none = err tt
or_return (some a) = ok a

-- `match std::str::from_utf8(msg)`
abbrev pub read_response : Json → List ℕ → Option ServerMessagePacket
read_response json msg = elim (from_utf8 msg) [ none ↦ none | some r ↦ server_from_json json r ]

-- `1024 * 1024`, the length of the buffer. Of a longer datagram the rest is lost.
abbrev pub response_size : ℕ
response_size = 1024 * 1024

-- The exchange, with `None` as an error; `id` is the id that the packet draws.
unfoldable pub exchange : Json → Wire → Address → Uuid → ClientMessage → Files ServerMessage
exchange json wire address id message = do
  bind_socket wire address
  assert wire.sets_timeout
  assert wire.sets_options
  raise_if (not wire.connects) tt
  message_ser ← from_outcome (expect_some (client_to_json json (new_client_packet id message)))
  assert wire.sends
  msg ← from_outcome (or_return (wire.recv message_ser))
  remove_socket address
  resp ← from_outcome (or_return (read_response json (take response_size msg)))
  raise_if (not (resp.message_id == id)) tt
  pure resp.message

abbrev pub as_option : {E A : Type 0} → Outcome (Unit {0}) A → Outcome E (Option A)
as_option (ok a) = ok (some a)
as_option (err e) = ok none
as_option panic = panic

unfoldable pub send_and_recv_msg :
    {E : Type 0}
    → Json
    → Wire
    → Address
    → Uuid
    → ClientMessage
    → Sql (List Address) E (Option ServerMessage)
send_and_recv_msg json wire address id message c =
    let (r, c') = exchange json wire address id message c in (as_option r, c')
