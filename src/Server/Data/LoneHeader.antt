-- ===== src/Server/Data/LoneHeader.antt =====
-- What client_data of server/input-server.c makes of a PASSWORD message of which only the first byte
-- has come: get_size_from_command says 0, which is taken for a complete message.
use network_gamepads.Base.{
  ℕ, ◌+◌, ◌≡◌, ◌≢◌, refl, ℤ, pos, negsuc, is_neg, ◌-ℤ◌, true, none, some, arith, get_elem?, drop,
}
use network_gamepads.Os.{Os}
use network_gamepads.Protocol.{get_size_from_command, message_password, message_password_required}
use network_gamepads.Server.State.{Config, Session}
use network_gamepads.Server.Handlers.{handle_password}
use network_gamepads.Server.Data.{dispatch, client_data_round, client_data, refill, recv_data}
use network_gamepads.Server.Data.Loop.{client_data_lem}

-- The state after the message is counted as used, with the length that stands behind the buffer's bytes.
abbrev pub overdrawn : Session → ℕ → Session
overdrawn s len = record s {
  client = record s.client {
    scan_offset = s.client.scan_offset + (2 + len);
    bytes_available = s.client.bytes_available -ℤ pos (2 + len);
  };
}

round_lem :
    (os : Os) (config : Config) (slot len : ℕ) (s : Session)
    → s.client.status ≢ message_password_required
    → s.client.bytes_available ≡ pos 1
    → get_elem? (drop s.client.scan_offset s.client.input_buffer) 0 ≡ some message_password
    → get_elem? (drop s.client.scan_offset s.client.input_buffer) 1 ≡ some len
    → client_data_round os config slot s ≡ some (none, overdrawn s len)
unfolding client_data_round get_size_from_command dispatch handle_password
round_lem os config slot len s h b e d = ground arith

refill-neg : (os : Os) (b : ℤ) (s : Session) → is_neg b ≡ true → refill os b s ≡ none
unfolding refill
refill-neg os (pos n) s h = cc
refill-neg os (negsuc k) s h = refl

recv_data-neg :
    (os : Os) (s : Session) → is_neg s.client.bytes_available ≡ true → recv_data os s ≡ none
unfolding recv_data
recv_data-neg os s h = refill-neg os s.client.bytes_available s h

-- If a client that is not asked for its password has one byte waiting, that of a PASSWORD message,
-- then client_data returns true with a negative count of waiting bytes, and the next recv_data
-- passes that count to memmove: one byte sent alone makes the server read and write outside of
-- its buffer.
pub lone_header :
    (os : Os) (config : Config) (slot len : ℕ) (s : Session)
    → s.client.status ≢ message_password_required
    → s.client.bytes_available ≡ pos 1
    → get_elem? (drop s.client.scan_offset s.client.input_buffer) 0 ≡ some message_password
    → get_elem? (drop s.client.scan_offset s.client.input_buffer) 1 ≡ some len
    → (s' : Session) × (client_data os config slot s ≡ some (true, s'))
      × (is_neg s'.client.bytes_available ≡ true)
      × (recv_data os s' ≡ none)
lone_header os config slot len s h b e d =
    let s' : Session = overdrawn s len in
    (
      s',
      ground (
        arith,
        client_data_lem os config slot s,
        client_data_lem os config slot s',
        round_lem os config slot len s h b e d,
      ),
      ground arith,
      recv_data-neg os s' (ground arith),
    )
