-- ===== src/Client/Events.antt =====
-- Events of client/input-client.c as server/input-server.c takes them.
use network_gamepads.Base.{
  ℕ, ◌<◌, ◌+◌, ◌*◌, ◌/◌, ◌%◌, ◌^◌, ◌≡◌, pos, minus_one, is_neg, ℤ, Option, length, List, [], ◌∷◌,
  ◌++◌, some, arith, if◌then◌else◌, ◌==◌,
}
use network_gamepads.Os.{Os, InputEvent, Call}
use network_gamepads.Protocol.{
  message_success, sizeof_data, message_setup_required, sizeof_request_event,
}
use network_gamepads.Server.State.{Session, Config, EnabledEvent, ev_max, key_max}
use network_gamepads.Server.Handlers.{handle_data, handle_request_event, append_event}
use network_gamepads.Client.{data_message, request_event_message}

word16 : (n : ℕ) → n < 2 ^ 16 → 256 * ((n / 256) % 256) + n % 256 ≡ n
word16 n h = omega arith

word32 :
    (n : ℕ)
    → n < 2 ^ 32
    → 65536 * (256 * ((n / 65536 / 256) % 256) + (n / 65536) % 256)
        + (256 * ((n / 256) % 256) + n % 256)
      ≡ n
word32 n h = omega arith

-- handle_data writes the event that run has sent to the device of a client with the status SUCCESS,
-- as it was, whatever comes behind it, and its result says whether the device took it.
pub handle_data-data_message :
    (os : Os) (event : InputEvent) (rest : List ℕ) (s : Session)
    → event.type < 2 ^ 16
    → event.code < 2 ^ 16
    → event.value < 2 ^ 32
    → s.client.status ≡ message_success
    → handle_data os (data_message event ++ rest) s
      ≡ some (
        (if is_neg (os.result s.trace (Call.write_event s.client.ev_fd event))
            then minus_one
            else pos sizeof_data),
        record s { trace = Call.write_event s.client.ev_fd event ∷ s.trace },
      )
unfolding handle_data data_message
handle_data-data_message os event rest s ht hc hv h =
    ground (arith, word16 event.type ht, word16 event.code hc, word32 event.value hv)

word16_le : (n : ℕ) → n < 2 ^ 16 → n % 256 + 256 * ((n / 256) % 256) ≡ n
word16_le n h = omega arith

abbrev with_events : Session → List EnabledEvent → Session
with_events s events = record {
  client = record s.client { meta = record s.client.meta { enabled_events = events } };
  trace = Call.alloc ((length s.client.meta.enabled_events + 1) * 16) ∷ s.trace;
}

-- The result for an event that is allowed, with the answer of realloc.
abbrev pub enabling : Session → EnabledEvent → ℤ → Option (ℤ × Session)
enabling s event block =
    if is_neg block
    then some (minus_one, with_events s [])
    else some (pos sizeof_request_event, with_events s (s.client.meta.enabled_events ++ event ∷ []))

-- In the status SETUP_REQUIRED, handle_request_event takes a request of send_key_info, with a type
-- and a code that have a place in the table, for the same type and code. One that is forbidden changes nothing. One that is allowed
-- is the last of enabled_events afterwards, behind those from before, and nothing else of the client
-- changes; where the memory for it cannot be had, the list is empty and the result -1.
pub handle_request_event-request_event_message :
    (os : Os) (config : Config) (type code : ℕ) (rest : List ℕ) (s : Session)
    → type < ev_max
    → code < key_max
    → s.client.status ≡ message_setup_required
    → handle_request_event os config (request_event_message type code ++ rest) s ≡ (
        if config.whitelist type code == 0
        then some (pos sizeof_request_event, s)
        else enabling s
            (record { type = type; code = code })
            (os.result s.trace (Call.alloc ((length s.client.meta.enabled_events + 1) * 16))))
unfolding handle_request_event request_event_message append_event
handle_request_event-request_event_message os config type code rest s ht hc h =
    ground (arith, word16_le type (omega arith), word16_le code (omega arith))
