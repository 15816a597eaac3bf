-- ===== src/Tests/Slots.antt =====
-- The theorems about slots and devices at concrete inputs.
use network_gamepads.Base.{refl, pos, minus_one, [], ◌∷◌, ◌++◌, ◌≡◌, some, arith}
use network_gamepads.Protocol.{message_hello, message_reserved_unconn, get_size_from_command}
use network_gamepads.Protocol.Sizes.{password, encode, get_size-encode}
use network_gamepads.Server.State.{GamepadClient}
use network_gamepads.Server.Hello.{Lobby, client_hello}
use network_gamepads.Server.Hello.Negotiation.{client_hello-Negotiated}
use network_gamepads.Server.Hello.Slots.{Negotiated}
use network_gamepads.Tests.System.{friendly, two_letters, holding}

-- One client that is connected, and one slot that is free.
abbrev idle : GamepadClient
idle = record (holding message_reserved_unconn []).client { fd = minus_one }

abbrev lobby : Lobby
lobby = record {
  clients = (holding message_reserved_unconn []).client ∷ idle ∷ [];
  waiter = record (holding message_reserved_unconn (message_hello ∷ 5 ∷ 2 ∷ [])).client {
    fd = pos 6;
  };
  trace = [];
}

client_hello-Negotiated_example :
    Negotiated lobby.clients (pos 6) (client_hello friendly two_letters lobby)
client_hello-Negotiated_example = client_hello-Negotiated friendly two_letters lobby refl

get_size-encode_example :
    get_size_from_command (encode (password (0x61 ∷ 0x62 ∷ 0 ∷ [])) ++ 0x10 ∷ []) 6 ≡ some (pos 5)
get_size-encode_example =
    get_size-encode (password (0x61 ∷ 0x62 ∷ 0 ∷ [])) (0x10 ∷ []) 6 (omega arith) (omega arith)
