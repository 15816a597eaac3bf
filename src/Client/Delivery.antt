-- ===== src/Client/Delivery.antt =====
-- The events of run (client/input-client.c) through client_data (server/input-server.c).
use network_gamepads.Base.{
  ℕ, ◌<◌, ◌≤◌, ◌+◌, ◌-◌, ◌*◌, ◌^◌, ◌≡◌, ◌≢◌, u32, refl, ap, ◌∙◌, sym, ℤ, pos, ◌-ℤ◌, drop-drop,
  is_neg, true, false, List, [], ◌∷◌, ◌++◌, none, some, arith, All, length, drop, get_elem?,
}
use mathlib.Core.List.{append_assoc}
use network_gamepads.Os.{Os, InputEvent, Call, Trace}
use network_gamepads.Protocol.{message_success, message_data, message_quit, get_size_from_command}
use network_gamepads.Server.State.{Session, Config}
use network_gamepads.Server.Handlers.{handle_data}
use network_gamepads.Server.Data.{client_data_round, client_data, dispatch}
use network_gamepads.Server.Data.Loop.{client_data_lem}
use network_gamepads.Client.{data_message}
use network_gamepads.Client.Events.{handle_data-data_message}

-- The fields have their widths.
abbrev pub Fits : InputEvent → Type 0
Fits event = (event.type < 2 ^ 16) × (event.code < 2 ^ 16) × (event.value < 2 ^ 32)

-- The bytes of the messages for the events, one after the other.
abbrev pub messages : List InputEvent → List ℕ
messages [] = []
messages (e ∷ es) = data_message e ++ messages es

-- The calls that write the events to the device, in their order.
abbrev pub deliver : ℤ → List InputEvent → Trace → Trace
deliver fd [] t = t
deliver fd (e ∷ es) t = deliver fd es (Call.write_event fd e ∷ t)

-- The device takes every event.
abbrev pub Takes : Os → ℤ → Type 0
Takes os fd = (t : Trace) (e : InputEvent) → is_neg (os.result t (Call.write_event fd e)) ≡ false

-- The session after n bytes of messages.
abbrev pub after : Session → ℕ → ℤ → Trace → Session
after s n left t = record {
  client = record s.client { scan_offset = s.client.scan_offset + n; bytes_available = left };
  trace = t;
}

dispatch-data :
    (os : Os) (config : Config) (slot : ℕ) (e : InputEvent) (rest : List ℕ) (s : Session)
    → dispatch os config slot message_data (data_message e ++ rest) s
      ≡ handle_data os (data_message e ++ rest) s
unfolding dispatch
dispatch-data os config slot e rest s = refl

get_size_from_command-data_message :
    (e : InputEvent) (rest : List ℕ) (n : ℕ)
    → get_size_from_command (data_message e ++ rest) n ≡ some (pos 9)
unfolding get_size_from_command data_message
get_size_from_command-data_message e rest n = refl

get_elem?-data_message :
    (e : InputEvent) (rest : List ℕ) → get_elem? (data_message e ++ rest) 0 ≡ some message_data
unfolding data_message
get_elem?-data_message e rest = refl

-- A round on a message that its handler takes.
client_data_round-dispatch :
    (os : Os) (config : Config) (slot n size kind : ℕ) (msg : List ℕ) (s s' : Session)
    → drop s.client.scan_offset s.client.input_buffer ≡ msg
    → s.client.bytes_available ≡ pos n
    → ((len : ℕ) → get_size_from_command msg len ≡ some (pos size))
    → get_elem? msg 0 ≡ some kind
    → kind ≢ message_quit
    → dispatch os config slot kind msg s ≡ some (pos size, s')
    → 1 ≤ size
    → size ≤ n
    → client_data_round os config slot s
      ≡ some (
        none,
        record s' {
          client = record s'.client {
            scan_offset = s'.client.scan_offset + size;
            bytes_available = s'.client.bytes_available -ℤ pos size;
          };
        },
      )
unfolding client_data_round
client_data_round-dispatch os config slot n size kind msg s s' buffer available sized first other
      handled pos_size le =
    ground (arith, sized (u32 n))

client_data_round-data_message :
    (os : Os) (config : Config) (slot n : ℕ) (e : InputEvent) (rest : List ℕ) (s : Session)
    → Takes os s.client.ev_fd
    → Fits e
    → s.client.status ≡ message_success
    → drop s.client.scan_offset s.client.input_buffer ≡ data_message e ++ rest
    → s.client.bytes_available ≡ pos n
    → 9 ≤ n
    → client_data_round os config slot s
      ≡ some (none, after s 9 (pos (n - 9)) (Call.write_event s.client.ev_fd e ∷ s.trace))
client_data_round-data_message os config slot n e rest s takes fits status buffer available le =
    client_data_round-dispatch os config slot n 9 message_data (data_message e ++ rest) s
      (record s { trace = Call.write_event s.client.ev_fd e ∷ s.trace }) buffer available
      (get_size_from_command-data_message e rest) (get_elem?-data_message e rest) (omega arith)
      (dispatch-data os config slot e rest s
        ∙ ground (arith, handle_data-data_message os e rest s, takes s.trace e))
      (omega arith) le
    ∙ ground arith

drop-data_message : (e : InputEvent) (rest : List ℕ) → drop 9 (data_message e ++ rest) ≡ rest
unfolding data_message
drop-data_message e rest = refl

drop-messages :
    (e : InputEvent) (es : List InputEvent) (rest buffer : List ℕ) (n : ℕ)
    → drop n buffer ≡ messages (e ∷ es) ++ rest
    → drop (n + 9) buffer ≡ messages es ++ rest
drop-messages e es rest buffer n h =
    sym (drop-drop 9 n (n + 9) buffer (omega arith))
    ∙ ap (drop 9) (h ∙ append_assoc (data_message e) (messages es) rest)
    ∙ drop-data_message e (messages es ++ rest)

-- If the buffer of a client with the status SUCCESS starts with the messages that run sends for some
-- events, and no more bytes wait, client_data writes these events to the device, each once and in
-- their order, and leaves no byte waiting, provided that the device takes events.
pub client_data-messages :
    (os : Os) (config : Config) (slot : ℕ) (es : List InputEvent) (rest : List ℕ) (s : Session)
    → Takes os s.client.ev_fd
    → All Fits es
    → s.client.status ≡ message_success
    → drop s.client.scan_offset s.client.input_buffer ≡ messages es ++ rest
    → s.client.bytes_available ≡ pos (9 * length es)
    → client_data os config slot s
      ≡ some (true, after s (9 * length es) (pos 0) (deliver s.client.ev_fd es s.trace))
client_data-messages os config slot [] rest s takes fits status buffer available =
    client_data_lem os config slot s ∙ ground arith
client_data-messages os config slot (e ∷ es) rest s takes fits status buffer available =
    let n : ℕ = 9 * length es in
    let s' : Session = after s 9 (pos n) (Call.write_event s.client.ev_fd e ∷ s.trace) in
    let round : client_data_round os config slot s ≡ some (none, s') =
      client_data_round-data_message os config slot (n + 9) e (messages es ++ rest) s takes fits.0
        status (buffer ∙ append_assoc (data_message e) (messages es) rest)
        (available ∙ ap pos (omega arith)) (omega arith)
      ∙ ground arith in
    client_data_lem os config slot s
    ∙ ground (
      arith,
      client_data-messages os config slot es rest s' takes fits.1 status
          (drop-messages e es rest s.client.input_buffer s.client.scan_offset buffer) refl,
    )
