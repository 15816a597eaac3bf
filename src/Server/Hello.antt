-- ===== src/Server/Hello.antt =====
-- Accepting connections and negotiating a slot: client_connection and client_hello of
-- server/input-server.c. The new connection waits in a queue of its own until its HELLO is handled.
pub mod Slots
pub mod Metas
pub mod Negotiation
use network_gamepads.Base.{
  ℕ, zero, suc, ◌+◌, ◌-◌, ℤ, pos, negsuc, minus_one, is_neg, is_pos, Bool, true, false, not, ◌&&◌,
  ◌||◌, List, [], ◌∷◌, Option, none, some, length, get_elem?, set, replicate, leb, ltb, ◌==◌,
  if◌then◌else◌,
}
use network_gamepads.Os.{Os, Trace, Call}
use network_gamepads.Protocol.{
  message_hello, message_success, message_version_mismatch, message_invalid_client_slot,
  message_invalid, message_password_required, message_setup_required, message_client_slot_in_use,
  message_client_slots_exhausted, protocol_version, sizeof_hello, input_buffer_size,
}
use network_gamepads.Network.{send_message}
use network_gamepads.Uinput.{cleanup_device}
use network_gamepads.Server.State.{Config, GamepadClient, Session, max_clients, max_waiting_clients}

-- The array `clients`, a waiting client, and the calls made so far.
pub record Lobby : Type 0 where
  pub clients : List GamepadClient
  pub waiter : GamepadClient
  pub trace : Trace

-- The first index whose client passes the test.
pub find_slot : (GamepadClient → Bool) → List GamepadClient → Option ℕ
find_slot test [] = none
find_slot test (c ∷ cs) =
    let rest = find_slot test cs in
    if test c then some 0 else elim rest [ none ↦ none | some u ↦ some (suc u) ]

-- close(client->fd); client->fd = -1; return false
drop_waiter : Lobby → Bool × Lobby
drop_waiter l = (
  false,
  record l {
    waiter = record l.waiter { fd = minus_one };
    trace = Call.close l.waiter.fd ∷ l.trace;
  },
)

-- The same after a reply with the reason.
pub reject : Os → ℕ → Lobby → Option (Bool × Lobby)
unfolding drop_waiter
reject os reason l =
    some (drop_waiter (record l { trace = (send_message os l.waiter.fd (reason ∷ []) l.trace).1 }))

-- cleanup_device(clients + u)
cleanup_slot : Os → ℕ → Lobby → Option Lobby
cleanup_slot os u l = elim (get_elem? l.clients u) [
  | none ↦ none
  | some c ↦ elim (cleanup_device os (record { client = c; trace = l.trace })) [
    | none ↦ none
    | some (_, s) ↦ some (record l { clients = set l.clients u s.client; trace = s.trace })
  ]
]

abbrev is_free : GamepadClient → Bool
is_free c = is_neg c.fd

-- A free slot without a device.
abbrev is_clean : GamepadClient → Bool
is_clean c = is_neg c.fd && is_neg c.ev_fd

-- The device of the free slot found is removed, if one is found. Slot numbers start at 1, and 0 is none.
reuse_slot : Os → Lobby → Option ℕ → Option (ℕ × Lobby)
unfolding cleanup_slot
reuse_slot os l none = some (0, l)
reuse_slot os l (some u) = elim (cleanup_slot os u l) [ none ↦ none | some l' ↦ some (suc u, l') ]

-- A free slot without a device is preferred.
choose_slot : Os → Lobby → Option ℕ → Option (ℕ × Lobby)
unfolding reuse_slot find_slot
choose_slot os l none = reuse_slot os l (find_slot is_free l.clients)
choose_slot os l (some u) = some (suc u, l)

assign_slot : Os → Lobby → Option (ℕ × Lobby)
unfolding choose_slot
assign_slot os l = choose_slot os l (find_slot is_clean l.clients)

abbrev is_minus_one : ℤ → Bool
is_minus_one (pos n) = false
is_minus_one (negsuc n) = n == 0

-- The reply that ends the negotiation, and the first status of the client.
abbrev pub greeting : Config → ℤ → ℕ
greeting config ev_fd =
    if ltb 0 (length config.password)
    then message_password_required
    else if is_minus_one ev_fd
    then message_setup_required
    else message_success

-- The move of the connection into slot `u` + 1, whose client is `c`.
abbrev seated : ℕ → ℕ → GamepadClient → Lobby → Lobby
seated status u c l = record {
  clients = set l.clients u (record c {
    fd = l.waiter.fd;
    scan_offset = 0;
    bytes_available = pos 0;
    input_buffer = replicate input_buffer_size 0;
    status = status;
  });
  waiter = record l.waiter { bytes_available = pos 0; scan_offset = 0; fd = minus_one };
  trace = l.trace;
}

-- The reply and, if it could be sent, the move.
greet : Os → ℕ → ℕ → GamepadClient → Lobby → Bool × Lobby
unfolding drop_waiter
greet os status u c l =
    let (sent, t) = send_message os l.waiter.fd (status ∷ []) l.trace in
    if sent
    then (true, seated status u c (record l { trace = t }))
    else drop_waiter (record l { trace = t })

pub welcome : Os → Config → ℕ → Lobby → Option (Bool × Lobby)
unfolding greet
welcome os config u l = elim (get_elem? l.clients u) [
  | none ↦ none
  | some c ↦ some (greet os (greeting config c.ev_fd) u c l)
]

-- A requested slot: it has to be one of the clients', and not in use.
request_slot : Os → Config → ℕ → Lobby → Option (Bool × Lobby)
unfolding reject welcome
request_slot os config u l =
    if leb max_clients u
    then reject os message_invalid_client_slot l
    else elim (get_elem? l.clients u) [
      | none ↦ none
      | some c ↦
          if is_pos c.fd then reject os message_client_slot_in_use l else welcome os config u l
    ]

-- msg->slot = u + 1, in the buffer of the waiting client.
abbrev note_slot : ℕ → Lobby → Lobby
note_slot slot l = record l {
  waiter = record l.waiter { input_buffer = set l.waiter.input_buffer 2 slot };
}

-- The end of a negotiation in which no slot was requested.
enter_slot : Os → Config → Option (ℕ × Lobby) → Option (Bool × Lobby)
unfolding reject welcome
enter_slot os config none = none
enter_slot os config (some (zero, l)) = reject os message_client_slots_exhausted l
enter_slot os config (some (suc u, l)) = welcome os config u (note_slot (suc u) l)

any_slot : Os → Config → Lobby → Option (Bool × Lobby)
unfolding assign_slot enter_slot
any_slot os config l = enter_slot os config (assign_slot os l)

-- The comparison with sizeof is one of unsigned numbers, and a negative count is a large one.
abbrev pub is_short : ℤ → Bool
is_short (pos n) = ltb n sizeof_hello
is_short (negsuc n) = false

hello_message : Os → Config → ℕ → ℕ → ℕ → Lobby → Option (Bool × Lobby)
unfolding reject request_slot any_slot
hello_message os config kind version slot l =
    if not (kind == message_hello)
    then reject os message_invalid l
    else if not (version == protocol_version)
    then reject os message_version_mismatch l
    else if slot == 0
    then any_slot os config l
    else request_slot os config (slot - 1) l

-- The fields of the message at the start of the buffer.
hello_fields : Os → Config → List ℕ → Lobby → Option (Bool × Lobby)
unfolding hello_message
hello_fields os config (kind ∷ version ∷ slot ∷ rest) l =
    hello_message os config kind version slot l
hello_fields os config _ l = none

unfoldable pub client_hello : Os → Config → Lobby → Option (Bool × Lobby)
unfolding hello_fields
client_hello os config l =
    if is_short l.waiter.bytes_available
    then some (true, l)
    else hello_fields os config l.waiter.input_buffer l

-- client_connection: the first waiting slot that is free takes the connection.
unfoldable pub client_connection :
    Os → ℤ → List GamepadClient → Trace → Bool × List GamepadClient × Trace
unfolding find_slot
client_connection os listener queue t = elim (find_slot (λ c. is_neg c.fd) queue) [
  | some u ↦ elim (get_elem? queue u) [
    | none ↦ (true, queue, accepting ∷ t)
    | some c ↦ (true, set queue u (record c { fd = os.result t accepting }), accepting ∷ t)
  ]
  | none ↦ if is_neg fd then (false, queue, accepting ∷ t) else (
    true,
    queue,
    Call.close fd ∷ (send_message os fd (message_client_slots_exhausted ∷ []) (accepting ∷ t)).1,
  )
]
  where
    accepting : Call
    accepting = Call.accept listener

    fd : ℤ
    fd = os.result t accepting
