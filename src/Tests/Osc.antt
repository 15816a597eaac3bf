-- ===== src/Tests/Osc.antt =====
-- The theorems about the OSC translator at concrete inputs.
use network_gamepads.Base.{
  Option, ◌==◌, if◌then◌else◌, ℕ, ◌≡◌, refl, pos, List, [], ◌∷◌, ◌++◌, none, some, true, ltb, arith,
  length, replicate,
}
use network_gamepads.Protocol.{message_data, message_success, input_buffer_size}
use network_gamepads.Server.Handlers.{handle_data}
use network_gamepads.Client.{password_message}
use network_gamepads.Osc.{Floats, OscControl, GpControl}
use network_gamepads.Osc.Parse.{osc_parse}
use network_gamepads.Osc.Parse.Encoded.{
  encode, pad, found, osc_parse-encode, Unreceived, osc_parse-Unreceived,
}
use network_gamepads.Os.{Os, Trace, Call}
use network_gamepads.Osc.Translate.{input_event, osc_msg_xlate}
use network_gamepads.Osc.Translate.Events.{report}
use network_gamepads.Osc.Translate.Received.{osc_msg_xlate-report}
use network_gamepads.Osc.Translate.Misread.{handle_data-input_event}
use network_gamepads.Osc.Negotiate.{pw_msg}
use network_gamepads.Osc.Negotiate.Steps.{password_message-pw_msg}
use network_gamepads.Osc.Mapping.{line_feed, configure}
use network_gamepads.Osc.Mapping.Stuck.{configure-stuck}
use network_gamepads.Osc.Mapping.Fetching.{Msg}
use network_gamepads.Tests.System.{friendly, holding}

-- Whole numbers from 0 to 255 in place of floats: the value is the last byte that is sent.
abbrev first_byte : List ℕ → ℕ
first_byte [] = 0
first_byte (x ∷ xs) = x

abbrev bytes_only : Floats ℕ
bytes_only = record { of_bytes = first_byte; of_zero = 0; lt = ltb; rounded = λ x. x }

-- "/a" with one argument.
abbrev path : List ℕ
path = 0x2F ∷ 0x61 ∷ []

abbrev one_float : List ℕ
one_float = 0x66 ∷ []

abbrev five : List ℕ
five = 0 ∷ 0 ∷ 0 ∷ 5 ∷ []

osc_parse-encode_example :
    osc_parse (encode path one_float five ++ (9 ∷ [])) (length (encode path one_float five))
    ≡ found one_float (length (pad path))
osc_parse-encode_example = osc_parse-encode path one_float five (9 ∷ []) (omega arith) (omega arith)

osc_parse-Unreceived_example :
    Unreceived 1
      (length (encode path one_float []))
      (osc_parse (encode path one_float [] ++ five) (length (encode path one_float [])))
osc_parse-Unreceived_example = osc_parse-Unreceived path one_float five (omega arith) (omega arith)

handle_data-input_event_example :
    handle_data friendly
      (message_data ∷ (input_event (replicate 16 0) 1 30 1 ++ []))
      (holding message_success [])
    ≡ handle_data friendly
        (message_data ∷ (input_event (replicate 16 0) 3 0 255 ++ []))
        (holding message_success [])
handle_data-input_event_example =
    handle_data-input_event friendly (replicate 16 0) [] [] 1 30 1 3 0 255
      (holding message_success []) refl

-- A server that asks for the password and for the device, and takes both.
abbrev agree : Trace → Option (List ℕ)
agree (Call.send fd (kind ∷ object) offset len ∷ t) =
    if kind == 1
    then some (0xF5 ∷ 0 ∷ [])
    else if kind == 2
    then some (0xF6 ∷ 0 ∷ [])
    else some (0xF0 ∷ 1 ∷ [])
agree t = none

abbrev agreeable : Os
agreeable = record friendly { recv_reply = λ t c. agree t }

password_message-pw_msg_example :
    password_message (0x61 ∷ 0x62 ∷ []) ≡ some (pw_msg (0x61 ∷ 0x62 ∷ []))
password_message-pw_msg_example = password_message-pw_msg (0x61 ∷ 0x62 ∷ []) (omega arith)

abbrev key_a : GpControl
key_a = record {
  type = 1;
  num_channels = 1;
  channels = record { code = 0x130; min = 0; max = 1 } ∷ [];
}

configure-stuck_example :
    configure bytes_only (λ n. true) 3 (key_a ∷ []) [] (line_feed ∷ 0 ∷ []) [] ≡ some none
configure-stuck_example = configure-stuck bytes_only (λ n. true) 3 key_a [] (0 ∷ []) []

-- "/a" with the value 5.
abbrev touch : Msg
touch = record { path = path; types = one_float; words = (0, 0, 0, 5) ∷ [] }

-- The button A under the path "/a", and a message that presses it.
abbrev button_a : OscControl ℕ
button_a = record {
  path = some path;
  type = 1;
  num_channels = 1;
  channels = record { code = 0x130; min = 0; max = 1 } ∷ [];
}

abbrev pressing : Os
pressing = record friendly { recv_reply = λ t c. some (encode path one_float five) }

osc_msg_xlate-report_example :
    osc_msg_xlate bytes_only
      (pos 5)
      (replicate 16 0)
      pressing
      (pos 4)
      ([] ++ button_a ∷ [])
      (replicate 1024 0)
      []
    ≡ some (
      pos 0,
      report bytes_only
          (pos 5)
          (replicate 16 0)
          button_a
          ((0, 0, 0, 5) ∷ [])
          (Call.recv (pos 4) input_buffer_size ∷ []),
    )
osc_msg_xlate-report_example =
    osc_msg_xlate-report bytes_only pressing (pos 4) (pos 5) (replicate 16 0) (replicate 1024 0) []
      [] button_a path one_float ((0, 0, 0, 5) ∷ []) [] refl refl (omega arith) (omega arith) tt
      refl refl (omega arith)
