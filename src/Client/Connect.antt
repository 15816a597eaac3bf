-- ===== src/Client/Connect.antt =====
-- init_connect, setup_device and send_key_info of client/input-client.c. The input device is the
-- answers of its ioctls.
pub mod Handshake
use network_gamepads.Base.{
  ℕ, zero, suc, ◌+◌, ◌*◌, ◌/◌, ◌%◌, ◌^◌, ℤ, pos, negsuc, Bool, true, false, not, ◌||◌, List, [],
  ◌∷◌, ◌++◌, Option, none, some, take, replicate, ◌==◌, if◌then◌else◌,
}
use network_gamepads.Words.{htole32}
use network_gamepads.Os.{Os, Trace, AbsInfo}
use network_gamepads.Protocol.{
  message_hello, message_absinfo, message_device, message_setup_end, message_success,
  message_version_mismatch, message_password_required, message_setup_required, protocol_version,
}
use network_gamepads.Network.{send_message}
use network_gamepads.Network.Receiving.{recv_message}
use network_gamepads.Server.State.{ev_max, uinput_max_name_size}
use network_gamepads.Client.{request_event_message, password_message}

-- EVIOCGID and EVIOCGNAME, EVIOCGBIT for the types and for the codes of a type, and EVIOCGABS; `none`
-- is an error. The name of EVIOCGNAME is the 80 bytes of the field.
pub record Device : Type 0 where
  pub id : Option (List ℕ)
  pub name : Option (List ℕ)
  pub types : Option (ℕ → Bool)
  pub codes : ℕ → Option (List Bool)
  pub abs_info : ℕ → Option AbsInfo

abbrev ev_abs : ℕ
ev_abs = 3

abbrev ev_led : ℕ
ev_led = 0x11

abbrev ev_rep : ℕ
ev_rep = 0x14

-- What init_connect reads of the configuration.
pub record ClientConfig : Type 0 where
  pub dev_name : Option (List ℕ)
  pub password : List ℕ
  pub slot : ℕ

absinfo_message : ℕ → AbsInfo → List ℕ
unfolding htole32
absinfo_message axis info =
    message_absinfo ∷ axis % 256 ∷ htole32 info.value
    ++ (htole32 info.minimum
        ++ (htole32 info.maximum
            ++ (htole32 info.fuzz ++ (htole32 info.flat ++ htole32 info.resolution))))

device_message : List ℕ → List ℕ → List ℕ
device_message id name = message_device ∷ uinput_max_name_size ∷ id ++ name

-- strncpy into the 80 bytes, the last of which is then 0.
c_name : List ℕ → List ℕ
c_name name = take 79 (name ++ replicate 79 0) ++ 0 ∷ []

infixl 20 ◌and_then◌
-- What follows a call that has not failed.
abbrev ◌and_then◌ : Bool × Trace → (Trace → Bool × Trace) → Bool × Trace
(sent, t) and_then next = if sent then next t else (false, t)

module _ (os : Os) (fd : ℤ) (device : Device) where
  -- One code of a type.
  send_code : ℕ → ℕ → Trace → Bool × Trace
  unfolding absinfo_message
  send_code type code t = send_message os fd (request_event_message type code) t and_then (λ t'.
      if type == ev_abs
      then elim (device.abs_info code) [
        | none ↦ (false, t')
        | some info ↦ send_message os fd (absinfo_message code info) t'
      ]
      else (true, t'))

  -- The codes from `code` on whose bits are set.
  send_codes : ℕ → ℕ → List Bool → Trace → Bool × Trace
  unfolding send_code
  send_codes type code [] t = (true, t)
  send_codes type code (true ∷ bits) t =
      send_code type code t and_then (λ t'. send_codes type (suc code) bits t')
  send_codes type code (false ∷ bits) t = send_codes type (suc code) bits t

  send_type : (ℕ → Bool) → ℕ → Trace → Bool × Trace
  unfolding send_codes
  send_type types type t =
      if (type == ev_rep) || (type == ev_led)
      then (true, t)
      else if types type
      then elim (device.codes type) [ none ↦ (false, t) | some bits ↦ send_codes type 0 bits t ]
      else (true, t)

  -- `left` types from `type` on.
  send_types : (ℕ → Bool) → ℕ → ℕ → Trace → Bool × Trace
  unfolding send_type
  send_types types type zero t = (true, t)
  send_types types type (suc left) t =
      send_type types type t and_then (λ t'. send_types types (suc type) left t')

  send_key_info : Trace → Bool × Trace
  unfolding send_types
  send_key_info t = elim device.types [
    | none ↦ (false, t)
    | some types ↦ send_types types 0 ev_max t
  ]

  setup_message : Option (List ℕ) → Option (List ℕ)
  unfolding device_message c_name
  setup_message dev_name = elim device.id [
    | none ↦ none
    | some id ↦ elim dev_name [
      | none ↦ elim device.name [ none ↦ none | some name ↦ some (device_message id name) ]
      | some name ↦ some (device_message id (c_name name))
    ]
  ]

  unfoldable pub setup_device : Option (List ℕ) → Trace → Bool × Trace
  unfolding setup_message send_key_info
  setup_device dev_name t = elim (setup_message dev_name) [
    | none ↦ (false, t)
    | some msg ↦
        send_message os fd msg t
        and_then send_key_info
        and_then send_message os fd (message_setup_end ∷ [])
  ]

  -- What init_connect has of the last message: the buffer, or none after an error.
  abbrev pub Progress : Type 0
  Progress = Option (Option (List ℕ) × Trace)

  -- recv_message after what is sent.
  unfoldable pub receive_after : List ℕ → Bool × Trace → Progress
  receive_after buf (false, t) = some (none, t)
  receive_after buf (true, t) = elim (recv_message os fd buf [] t) [
    | none ↦ none
    | some (negsuc k, buf', t') ↦ some (none, t')
    | some (pos n, buf', t') ↦ some (some buf', t')
  ]

  first_byte : List ℕ → ℕ → Bool
  first_byte [] kind = false
  first_byte (x ∷ xs) kind = x == kind

  unfoldable pub exchange_password : List ℕ → List ℕ → Trace → Progress
  unfolding receive_after
  exchange_password password buf t = elim (password_message password) [
    | none ↦ some (none, t)
    | some msg ↦ receive_after buf (send_message os fd msg t)
  ]

  -- The test for VERSION_MISMATCH and PASSWORD_REQUIRED.
  unfoldable pub authenticate : List ℕ → List ℕ → Trace → Progress
  unfolding exchange_password first_byte
  authenticate password buf t =
      if first_byte buf message_version_mismatch
      then some (none, t)
      else if first_byte buf message_password_required
      then exchange_password password buf t
      else some (some buf, t)

  unfoldable pub set_up : Option (List ℕ) → List ℕ → Trace → Progress
  unfolding setup_device receive_after first_byte
  set_up dev_name buf t =
      if first_byte buf message_setup_required
      then receive_after buf (setup_device dev_name t)
      else some (some buf, t)

  unfoldable pub next : Progress → (List ℕ → Trace → Progress) → Progress
  next none f = none
  next (some (none, t)) f = some (none, t)
  next (some (some buf, t)) f = f buf t

  -- The result, and the slot of the configuration.
  unfoldable pub conclude : ClientConfig → Progress → Option (Bool × ClientConfig × Trace)
  conclude config none = none
  conclude config (some (none, t)) = some (false, config, t)
  conclude config (some (some (kind ∷ slot ∷ rest), t)) =
      if kind == message_success
      then some (true, record config { slot = slot }, t)
      else some (false, config, t)
  conclude config (some (some buf, t)) = none

  -- `buf` is the memory of the buffer before.
  unfoldable pub init_connect : List ℕ → ClientConfig → Trace → Option (Bool × ClientConfig × Trace)
  unfolding conclude next set_up authenticate receive_after
  init_connect buf config t =
      let hello = send_message os fd (message_hello ∷ protocol_version ∷ config.slot ∷ []) t in
      conclude config (
        next (next (receive_after buf hello) (authenticate config.password))
          (set_up config.dev_name))
