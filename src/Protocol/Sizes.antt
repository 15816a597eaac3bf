-- ===== src/Protocol/Sizes.antt =====
-- What get_size_from_command of common/protocol.c answers, against the message layouts of
-- protocol/protocol.md.
use network_gamepads.Base.{
  ℕ, ◌<◌, ◌≡◌, pos, List, [], ◌∷◌, ◌++◌, some, arith, length, length-append,
}
use network_gamepads.Protocol.{
  get_size_from_command, message_hello, message_password, message_absinfo, message_device,
  message_setup_end, message_request_event, message_data, message_success, message_setup_required,
  message_version_mismatch, message_invalid_password, message_invalid_client_slot, message_invalid,
  message_password_required, message_client_slot_in_use, message_client_slots_exhausted,
  message_quit,
}

-- The messages of protocol.md as it lays them out; a list of bytes stands for a struct.
pub data Message : Type 0 where
  hello : ℕ → ℕ → Message
  password : List ℕ → Message
  absinfo : ℕ → List ℕ → Message
  device : List ℕ → List ℕ → Message
  setup_end : Message
  request_event : List ℕ → Message
  event : List ℕ → Message
  success : ℕ → Message
  setup_required : Message
  version_mismatch : ℕ → Message
  invalid_password invalid_client_slot invalid_message : Message
  password_required client_slot_in_use client_slots_exhausted : Message
  quit : Message

-- The structs have their sizes, and a length fits into its byte.
abbrev pub IsWellSized : Message → Type 0
IsWellSized (password text) = length text < 256
IsWellSized (absinfo axis info) = length info ≡ 24
IsWellSized (device id name) = (length id ≡ 8) × (length name < 256)
IsWellSized (request_event body) = length body ≡ 4
IsWellSized (event body) = length body ≡ 8
IsWellSized _ = Unit

abbrev pub encode : Message → List ℕ
encode (hello version slot) = message_hello ∷ version ∷ slot ∷ []
encode (password text) = message_password ∷ length text ∷ text
encode (absinfo axis info) = message_absinfo ∷ axis ∷ info
encode (device id name) = message_device ∷ length name ∷ id ++ name
encode setup_end = message_setup_end ∷ []
encode (request_event body) = message_request_event ∷ body
encode (event body) = message_data ∷ body
encode (success slot) = message_success ∷ slot ∷ []
encode setup_required = message_setup_required ∷ []
encode (version_mismatch version) = message_version_mismatch ∷ version ∷ []
encode invalid_password = message_invalid_password ∷ []
encode invalid_client_slot = message_invalid_client_slot ∷ []
encode invalid_message = message_invalid ∷ []
encode password_required = message_password_required ∷ []
encode client_slot_in_use = message_client_slot_in_use ∷ []
encode client_slots_exhausted = message_client_slots_exhausted ∷ []
encode quit = message_quit ∷ []

-- When at least two bytes are available, get_size_from_command finds the length of a message of any of
-- the 17 types, laid out as protocol.md has it, at the start of any stream.
pub get_size-encode :
    (m : Message) (rest : List ℕ) (n : ℕ)
    → IsWellSized m
    → 1 < n
    → get_size_from_command (encode m ++ rest) n ≡ some (pos (length (encode m)))
unfolding get_size_from_command
get_size-encode (hello version slot) rest n w h = ground arith
get_size-encode (device id name) rest n w h = ground (arith, length-append id name)
get_size-encode _ rest n w h = ground arith
