-- ===== src/Osc/Negotiate.antt =====
-- The negotiation of osc/osc-xlater.c with the server: enable_codes and input_negotiate. The results
-- of send are not looked at.
pub mod Steps
pub mod Talk
pub mod Bytes
use network_gamepads.Base.{
  ℕ, zero, suc, ◌+◌, ◌*◌, ◌/◌, ◌%◌, ℤ, pos, minus_one, Bool, true, false, List, [], ◌∷◌, ◌++◌,
  Option, none, some, length, get_elem?, replicate, take, ◌==◌, if◌then◌else◌,
}
use network_gamepads.Words.{htole16, htole32}
use network_gamepads.Os.{Os, Trace, Call}
use network_gamepads.Protocol.{
  message_hello, message_absinfo, message_password, message_device, message_request_event,
  message_setup_end, message_success, message_version_mismatch, message_password_required,
  message_invalid_password, message_setup_required, protocol_version,
}
use network_gamepads.Network.{stored}
use network_gamepads.Osc.{GpChannel, GpControl, gamepad_controls, ev_abs}
use network_gamepads.Osc.Translate.{send}

-- ABSInfoMessage: all fields but the minimum and the maximum are 0.
absinfo_message : GpChannel → List ℕ
unfolding htole32
absinfo_message channel =
    message_absinfo ∷ channel.code % 256 ∷ replicate 4 0
    ++ (htole32 channel.min ++ (htole32 channel.max ++ replicate 12 0))

-- for (j = 0; j < control.num_channels; j++); `none` is a read outside of the channels.
send_absinfo : ℤ → List GpChannel → ℕ → Trace → Option Trace
unfolding absinfo_message
send_absinfo fd channels zero t = some t
send_absinfo fd [] (suc left) t = none
send_absinfo fd (channel ∷ channels) (suc left) t =
    send_absinfo fd channels left (send fd (absinfo_message channel) t)

-- One control: the ranges of its axes, or the request for its key.
enable_control : ℤ → GpControl → Trace → Option Trace
unfolding send_absinfo htole16
enable_control fd control t =
    if control.type == ev_abs
    then send_absinfo fd control.channels control.num_channels t
    else elim (get_elem? control.channels 0) [
      | none ↦ none
      | some channel ↦
          some (send fd (message_request_event ∷ htole16 control.type ++ htole16 channel.code) t)
    ]

enable_controls : ℤ → List GpControl → Trace → Option Trace
unfolding enable_control
enable_controls fd [] t = some t
enable_controls fd (control ∷ controls) t = elim (enable_control fd control t) [
  | none ↦ none
  | some t' ↦ enable_controls fd controls t'
]

unfoldable pub enable_codes : ℤ → Trace → Option Trace
unfolding enable_controls gamepad_controls
enable_codes fd t = enable_controls fd gamepad_controls t

-- The PasswordMessage. Its length is a byte, and strncpy copies no more than it says.
unfoldable pub pw_msg : List ℕ → List ℕ
pw_msg password =
    let len = (length password + 1) % 256 in message_password ∷ len ∷ take len (password ++ 0 ∷ [])

-- The DeviceMessage, with an id of zeros.
unfoldable pub dev_msg : List ℕ → List ℕ
dev_msg devname =
    let len = (length devname + 1) % 256 in
    message_device ∷ len ∷ replicate 8 0 ++ take len (devname ++ 0 ∷ [])

-- The buffer after a step, or none after an error.
abbrev pub Progress : Type 0
Progress = Option (List ℕ) × Trace

-- recv of two bytes.
receive_pair : Os → ℤ → List ℕ → Trace → Progress
receive_pair os fd buf t =
    let call = Call.recv fd 2 in
    elim (os.recv_reply t call) [
      | none ↦ (none, call ∷ t)
      | some [] ↦ (none, call ∷ t)
      | some (b ∷ bs) ↦ (some (stored buf 0 (b ∷ bs)), call ∷ t)
    ]

abbrev pub holds : List ℕ → ℕ → Bool
holds [] kind = false
holds (x ∷ xs) kind = x == kind

abbrev refuse_password : Progress → Progress
refuse_password (none, t) = (none, t)
refuse_password (some buf, t) =
    if holds buf message_invalid_password then (none, t) else (some buf, t)

-- The tests for VERSION_MISMATCH and PASSWORD_REQUIRED.
authenticate : Os → ℤ → List ℕ → Progress → Progress
unfolding receive_pair pw_msg
authenticate os fd password (none, t) = (none, t)
authenticate os fd password (some buf, t) =
    if holds buf message_version_mismatch
    then (none, t)
    else if holds buf message_password_required
    then refuse_password (receive_pair os fd buf (send fd (pw_msg password) t))
    else (some buf, t)

set_up : Os → ℤ → List ℕ → Progress → Option Progress
unfolding receive_pair dev_msg enable_codes
set_up os fd devname (none, t) = some (none, t)
set_up os fd devname (some buf, t) =
    if holds buf message_setup_required
    then elim (enable_codes fd (send fd (dev_msg devname) t)) [
      | none ↦ none
      | some t' ↦ some (receive_pair os fd buf (send fd (message_setup_end ∷ []) t'))
    ]
    else some (some buf, t)

conclude : Option Progress → Option (ℤ × Trace)
conclude none = none
conclude (some (none, t)) = some (minus_one, t)
conclude (some (some buf, t)) =
    if holds buf message_success then some (pos 0, t) else some (minus_one, t)

unfoldable pub input_negotiate : Os → ℤ → List ℕ → List ℕ → Trace → Option (ℤ × Trace)
unfolding receive_pair authenticate set_up conclude
input_negotiate os fd devname password t =
    let hello = send fd (message_hello ∷ protocol_version ∷ 0 ∷ []) t in
    conclude
      (set_up os fd devname (authenticate os fd password (receive_pair os fd (0 ∷ 0 ∷ []) hello)))
