-- ===== src/Tests/Clients.antt =====
-- The theorems about what the client sends and receives at concrete inputs.
use network_gamepads.Base.{
  none, true, false, replicate, All-replicate, ◌<◌, ℕ, ◌≡◌, refl, pos, minus_one, is_neg, List, [],
  ◌∷◌, ◌++◌, some, arith, if◌then◌else◌, ◌==◌, zero, suc,
}
use network_gamepads.Os.{InputEvent, Call}
use network_gamepads.Protocol.{
  message_password, message_password_required, message_setup_required, message_success, sizeof_data,
  sizeof_request_event,
}
use network_gamepads.Network.Replies.{AreBytes, GivesBytes}
use network_gamepads.Network.Receiving.{recv_message}
use network_gamepads.Network.Receiving.Bounds.{Receives, recv_message-Receives}
use network_gamepads.Server.Handlers.{handle_data, handle_request_event}
use network_gamepads.Client.{data_message, request_event_message, password_message}
use network_gamepads.Client.Events.{
  handle_data-data_message, enabling, handle_request_event-request_event_message,
}
use network_gamepads.Client.Passwords.{Checks, password_message-Checks}
use network_gamepads.Client.Connect.{Device, ClientConfig, init_connect}
use network_gamepads.Client.Connect.Handshake.{IsBuffer, Decides, init_connect-Decides}
use network_gamepads.Tests.System.{quit_message, friendly, two_letters, holding}
use network_gamepads.Tests.Sessions.{friendly-IsBounded}

quit_message-AreBytes : (c : Call) (bytes : List ℕ) → quit_message c ≡ some bytes → AreBytes bytes
quit_message-AreBytes (Call.recv fd zero) bytes e = ground arith
quit_message-AreBytes (Call.recv fd (suc n)) bytes e = ground arith
quit_message-AreBytes _ bytes e = cc

friendly-GivesBytes : GivesBytes friendly
friendly-GivesBytes t call bytes e = quit_message-AreBytes call bytes e

recv_message-Receives_example :
    Receives 4 (recv_message friendly (pos 5) (0 ∷ 0 ∷ 0 ∷ 0 ∷ []) [] [])
recv_message-Receives_example =
    recv_message-Receives friendly (pos 5) 2 (0 ∷ 0 ∷ 0 ∷ 0 ∷ []) [] friendly-IsBounded
      friendly-GivesBytes (omega arith) refl (omega arith)

-- The key 30 is pressed.
abbrev pressed : InputEvent
pressed = record { type = 1; code = 30; value = 1 }

handle_data-data_message_example :
    handle_data friendly (data_message pressed ++ []) (holding message_success [])
    ≡ some (
      (if is_neg (friendly.result [] (Call.write_event minus_one pressed))
          then minus_one
          else pos sizeof_data),
      record (holding message_success []) { trace = Call.write_event minus_one pressed ∷ [] },
    )
handle_data-data_message_example =
    handle_data-data_message friendly pressed [] (holding message_success []) (omega arith)
      (omega arith) (omega arith) refl

handle_request_event-request_event_message_example :
    handle_request_event friendly two_letters
      (request_event_message 1 30 ++ [])
      (holding message_setup_required [])
    ≡ (if two_letters.whitelist 1 30 == 0
        then some (pos sizeof_request_event, holding message_setup_required [])
        else enabling
            (holding message_setup_required [])
            (record { type = 1; code = 30 })
            (friendly.result [] (Call.alloc 16)))
handle_request_event-request_event_message_example =
    handle_request_event-request_event_message friendly two_letters 1 30 []
      (holding message_setup_required []) (omega arith) (omega arith) refl

two_letters-sent :
    password_message (0x61 ∷ 0x62 ∷ []) ≡ some (message_password ∷ 3 ∷ 0x61 ∷ 0x62 ∷ 0 ∷ [])
unfolding password_message
two_letters-sent = refl

password_message-Checks_example :
    Checks friendly two_letters
      (0x61 ∷ 0x62 ∷ [])
      ((message_password ∷ 3 ∷ 0x61 ∷ 0x62 ∷ 0 ∷ []) ++ [])
      (holding message_password_required [])
password_message-Checks_example =
    password_message-Checks friendly two_letters (0x61 ∷ 0x62 ∷ [])
      (message_password ∷ 3 ∷ 0x61 ∷ 0x62 ∷ 0 ∷ []) [] (holding message_password_required [])
      (omega arith) (omega arith) two_letters-sent refl

-- A device with the key 1, and a client for it.
abbrev pub one_key : Device
one_key = record {
  id = some (replicate 8 0);
  name = some (replicate 80 0);
  types = some (λ type. type == 1);
  codes = λ type. some (false ∷ true ∷ []);
  abs_info = λ code. none;
}

abbrev pub any_slot_wanted : ClientConfig
any_slot_wanted = record { dev_name = none; password = 0x61 ∷ 0x62 ∷ []; slot = 0 }

zeros-IsBuffer : IsBuffer (replicate 1024 0)
zeros-IsBuffer = (refl, All-replicate (λ b. b < 256) 1024 0 (omega arith))

init_connect-Decides_example :
    Decides any_slot_wanted
      (init_connect friendly (pos 5) one_key (replicate 1024 0) any_slot_wanted [])
init_connect-Decides_example =
    init_connect-Decides friendly (pos 5) one_key (replicate 1024 0) any_slot_wanted []
      friendly-IsBounded friendly-GivesBytes zeros-IsBuffer
