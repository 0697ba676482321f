-- ===== src/Message/Laws.antt =====
-- Writing and reading the packets of src/message.rs.
use capycoin.Base.{ℕ, ◌≡◌, refl, none, some, List, if◌then◌else◌}
use capycoin.Base.Int.{pos, eqb_ℤ}
use capycoin.Message.{
  ClientMessagePacket, ServerMessagePacket, Json, client_to_json, client_from_json, server_to_json,
  server_from_json,
}

module _ (json : Json) where
  -- A client's packet that `to_json` has written is read back as it was by `from_json` if its
  -- version is 1, and rejected otherwise.
  pub client_from_json-client_to_json :
      (p : ClientMessagePacket) (s : List ℕ)
      → client_to_json json p ≡ some s
      → client_from_json json s ≡ (if eqb_ℤ p.v (pos 1) then some p else none)
  unfolding client_to_json client_from_json
  client_from_json-client_to_json p s written =
      rw (client_from_json, json.client_reads p s written) refl

  -- The same for the server's packets.
  pub server_from_json-server_to_json :
      (p : ServerMessagePacket) (s : List ℕ)
      → server_to_json json p ≡ some s
      → server_from_json json s ≡ (if eqb_ℤ p.v (pos 1) then some p else none)
  unfolding server_to_json server_from_json
  server_from_json-server_to_json p s written =
      rw (server_from_json, json.server_reads p s written) refl
