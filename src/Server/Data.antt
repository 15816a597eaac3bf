-- ===== src/Server/Data.antt =====
-- client_data and recv_data of server/input-server.c: the loop over the messages in a client's
-- buffer, and the refill of the buffer from the socket.
pub mod Progress
pub mod Loop
pub mod Lockout
pub mod Refill
pub mod Framing
pub mod LoneHeader
pub mod Whitelist
use network_gamepads.Base.{
  ℕ, zero, suc, ◌+◌, ◌-◌, ◌≤◌, ◌<◌, ℤ, pos, negsuc, minus_one, pos_part, is_neg, is_pos, ltb_ℤ,
  ◌-ℤ◌, u32, Bool, true, false, List, [], ◌∷◌, ◌++◌, Option, none, some, length, get_elem?, take,
  drop, leb, ltb, ◌==◌, if◌then◌else◌,
}
use network_gamepads.Os.{Os, Call}
use network_gamepads.Protocol.{
  message_password, message_absinfo, message_device, message_request_event, message_setup_required,
  message_quit, message_setup_end, message_data, get_size_from_command, input_buffer_size,
}
use network_gamepads.Network.{stored}
use network_gamepads.Server.State.{
  Config, GamepadClient, Session, Proc, ret, when◌then◌else◌, ◌>>=◌, ◌>>◌, client, modify, lift,
  close_fd,
}
use network_gamepads.Server.Handlers.{
  handle_password, handle_absinfo, handle_device, handle_setup_required, handle_quit,
  handle_request_event, handle_setup_end, handle_data,
}

-- The switch over the message type, all cases but that of MESSAGE_QUIT.
unfoldable pub dispatch : Os → Config → ℕ → ℕ → List ℕ → Proc ℤ
dispatch os config slot kind msg =
    when kind == message_password
    then handle_password os config msg
    else when kind == message_absinfo
    then handle_absinfo msg
    else when kind == message_device
    then handle_device os msg
    else when kind == message_request_event
    then handle_request_event os config msg
    else when kind == message_setup_required
    then handle_setup_required os
    else when kind == message_setup_end
    then handle_setup_end os slot
    else when kind == message_data
    then handle_data os msg
    else ret minus_one

-- The end of a round: a negative result closes the connection, and a positive one moves the buffer on.
settle : Os → ℤ → Proc (Option Bool)
settle os result = when is_neg result then (do close_fd os; ret (some false)) else (do
  modify (λ c.
      if is_pos result
      then record c {
        scan_offset = c.scan_offset + pos_part result;
        bytes_available = c.bytes_available -ℤ result;
      }
      else c)
  ret none)

-- One round of the loop: `some b` returns b from client_data, and `none` goes on.
unfoldable pub client_data_round : Os → Config → ℕ → Proc (Option Bool)
unfolding settle
client_data_round os config slot = do
  c ← client
  let msg = drop c.scan_offset c.input_buffer
  bytes ← lift (get_size_from_command msg (u32 (pos_part c.bytes_available)))
  when is_neg bytes
      then ret (some false)
      else when ltb_ℤ c.bytes_available bytes
      then ret (some true)
      else (do
        kind ← lift (get_elem? msg 0)
        when kind == message_quit
            then (do _ ← handle_quit os; ret (some false))
            else (do result ← dispatch os config slot kind msg; settle os result))

-- The loop on fuel; `none` without fuel is excluded by the fuel that client_data gives.
pub client_data_loop : Os → Config → ℕ → ℕ → Proc Bool
client_data_loop os config slot zero s =
    if is_pos s.client.bytes_available then none else some (true, s)
client_data_loop os config slot (suc fuel) s =
    let rest : Option (Bool × Session) = elim (client_data_round os config slot s) [
      | none ↦ none
      | some (some b, s') ↦ some (b, s')
      | some (none, s') ↦ client_data_loop os config slot fuel s'
    ] in
    if is_pos s.client.bytes_available then rest else some (true, s)

-- A round that goes on uses at least one byte.
unfoldable pub client_data : Os → Config → ℕ → Proc Bool
unfolding client_data_loop
client_data os config slot s = client_data_loop os config slot (pos_part s.client.bytes_available) s

-- The buffer after the memmove of its `n` bytes from `offset` to the start.
abbrev pub shifted : List ℕ → ℕ → ℕ → List ℕ
shifted buffer offset n = take n (drop offset buffer) ++ drop n buffer

-- The call of recv and what follows it, with `n` bytes at the start of the buffer.
receive : Os → ℕ → Proc Bool
receive os n s =
    let call = Call.recv s.client.fd (input_buffer_size - n) in
    let s' = record s { trace = call ∷ s.trace } in
    elim (os.recv_reply s.trace call) [
      | none ↦ some (false, s')
      | some [] ↦ some (false, s')
      | some (b ∷ bs) ↦ some (
        true,
        record s' {
          client = record s.client {
            input_buffer = stored s.client.input_buffer n (b ∷ bs);
            bytes_available = pos (n + length (b ∷ bs));
            scan_offset = 0;
          };
        },
      )
    ]

-- memmove and recv take the count as a size_t: a negative one is far outside of the buffer, as is
-- one for which the buffer is too short.
refill : Os → ℤ → Proc Bool
unfolding receive
refill os (negsuc k) s = none
refill os (pos n) s =
    if leb (s.client.scan_offset + n) input_buffer_size
    then receive os n (record s {
      client = record s.client {
        input_buffer = shifted s.client.input_buffer s.client.scan_offset n;
      };
    })
    else none

unfoldable pub recv_data : Os → Proc Bool
unfolding refill
recv_data os s = refill os s.client.bytes_available s
