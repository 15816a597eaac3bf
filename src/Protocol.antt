-- ===== src/Protocol.antt =====
-- The wire protocol: common/protocol.h and common/protocol.c.
-- Bytes are numbers below 256; a pointer into a buffer is the list of the bytes from there to the
-- end of the buffer, and a read behind that end is `none`.
pub mod Sizes
use Prim.Native.String.{String}
use network_gamepads.Base.{
  ℕ, zero, suc, ◌+◌, ◌-◌, ◌^◌, ℤ, pos, u32, to_int32, Bool, ◌||◌, List, [], Option, none, some,
  get_elem?, ltb, ◌==◌, if◌then◌else◌,
}

abbrev pub protocol_version : ℕ
protocol_version = 0x05

abbrev pub input_buffer_size : ℕ
input_buffer_size = 1024

abbrev pub message_reserved_unconn : ℕ
message_reserved_unconn = 0x00

abbrev pub message_hello : ℕ
message_hello = 0x01

abbrev pub message_password : ℕ
message_password = 0x02

abbrev pub message_absinfo : ℕ
message_absinfo = 0x03

abbrev pub message_device : ℕ
message_device = 0x04

abbrev pub message_setup_end : ℕ
message_setup_end = 0x05

abbrev pub message_request_event : ℕ
message_request_event = 0x06

abbrev pub message_data : ℕ
message_data = 0x10

abbrev pub message_success : ℕ
message_success = 0xF0

abbrev pub message_version_mismatch : ℕ
message_version_mismatch = 0xF1

abbrev pub message_invalid_password : ℕ
message_invalid_password = 0xF2

abbrev pub message_invalid_client_slot : ℕ
message_invalid_client_slot = 0xF3

abbrev pub message_invalid : ℕ
message_invalid = 0xF4

abbrev pub message_password_required : ℕ
message_password_required = 0xF5

abbrev pub message_setup_required : ℕ
message_setup_required = 0xF6

abbrev pub message_client_slot_in_use : ℕ
message_client_slot_in_use = 0xF7

abbrev pub message_client_slots_exhausted : ℕ
message_client_slots_exhausted = 0xF8

abbrev pub message_quit : ℕ
message_quit = 0xF9

-- The sizes of the packed structs; struct input_absinfo is 24 bytes and struct input_id 8.
abbrev pub sizeof_hello : ℕ
sizeof_hello = 3

abbrev pub sizeof_password : ℕ
sizeof_password = 2

abbrev pub sizeof_absinfo : ℕ
sizeof_absinfo = 26

abbrev pub sizeof_request_event : ℕ
sizeof_request_event = 5

abbrev pub sizeof_device : ℕ
sizeof_device = 10

abbrev pub sizeof_data : ℕ
sizeof_data = 9

abbrev pub sizeof_version_mismatch : ℕ
sizeof_version_mismatch = 2

abbrev pub sizeof_success : ℕ
sizeof_success = 2

pub record MessageInfo : Type 0 where
  pub length : ℕ
  pub name : String

-- The unsigned length of an invalid message is -1, that is 2 ^ 32 - 1.
message_types_info : ℕ → MessageInfo
message_types_info kind =
    if kind == message_hello
    then info sizeof_hello "Hello"
    else if kind == message_password
    then info sizeof_password "Password"
    else if kind == message_absinfo
    then info sizeof_absinfo "AbsInfo"
    else if kind == message_device
    then info sizeof_device "Device"
    else if kind == message_request_event
    then info sizeof_request_event "EventEnableRequest"
    else if kind == message_setup_end
    then info 1 "SetupDone"
    else if kind == message_data
    then info sizeof_data "Data"
    else if kind == message_success
    then info sizeof_success "Success"
    else if kind == message_version_mismatch
    then info sizeof_version_mismatch "VersionMismatch"
    else if kind == message_invalid_password
    then info 1 "PasswordInvalid"
    else if kind == message_invalid_client_slot
    then info 1 "SlotInvalid"
    else if kind == message_invalid
    then info 1 "ProtocolError"
    else if kind == message_password_required
    then info 1 "PasswordRequest"
    else if kind == message_setup_required
    then info 1 "SetupRequest"
    else if kind == message_client_slot_in_use
    then info 1 "Occupied"
    else if kind == message_client_slots_exhausted
    then info 1 "Exhausted"
    else if kind == message_quit
    then info 1 "Quit"
    else info (2 ^ 32 - 1) "Invalid Message"
  where
    info : ℕ → String → MessageInfo
    info n s = record { length = n; name = s }

pub get_message_name : ℕ → String
unfolding message_types_info
get_message_name kind = (message_types_info kind).name

command_size : ℕ → List ℕ → ℕ → Option ℤ
unfolding message_types_info
command_size kind buf len =
    if (kind == message_password) || (kind == message_device)
    then (if ltb 1 len
        then elim (get_elem? buf 1) [
          | none ↦ none
          | some n ↦ some (to_int32 (u32 ((message_types_info kind).length + n)))
        ]
        else some (pos 0))
    else some (to_int32 (message_types_info kind).length)

-- `none` is a read outside of the buffer.
unfoldable pub get_size_from_command : List ℕ → ℕ → Option ℤ
unfolding command_size
get_size_from_command buf len = elim (get_elem? buf 0) [
  | none ↦ none
  | some kind ↦ command_size kind buf len
]
