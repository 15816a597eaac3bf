-- ===== src/Client.antt =====
-- The messages that client/input-client.c sends, as the bytes of their structs.
pub mod Passwords
pub mod Events
pub mod Connect
pub mod Delivery
pub mod Run
pub mod Scan
pub mod Streamed
pub mod Main
use network_gamepads.Base.{
  ℕ, suc, ◌+◌, ◌*◌, ◌/◌, ◌%◌, List, [], ◌∷◌, ◌++◌, Option, none, some, ltb, length, if◌then◌else◌,
}
use network_gamepads.Words.{htobe16, htobe32, htole16}
use network_gamepads.Os.{InputEvent}
use network_gamepads.Protocol.{
  message_hello, message_password, message_request_event, message_data, protocol_version,
}

-- The DataMessage that run sends for an event; the value is the 32-bit word of the signed number.
unfoldable pub data_message : InputEvent → List ℕ
unfolding htobe16 htobe32
data_message event = message_data ∷ htobe16 event.type ++ htobe16 event.code ++ htobe32 event.value

-- The RequestEventMessage that send_key_info sends for a code of a type.
unfoldable pub request_event_message : ℕ → ℕ → List ℕ
unfolding htole16
request_event_message type code = message_request_event ∷ htole16 type ++ htole16 code

-- The PasswordMessage that init_connect sends; `none` is the error of a password that is too long.
-- calloc is taken to give the memory for it.
unfoldable pub password_message : List ℕ → Option (List ℕ)
password_message password =
    let pwlen = suc (length password) in
    if ltb 254 pwlen then none else some (message_password ∷ pwlen ∷ (password ++ 0 ∷ []))
