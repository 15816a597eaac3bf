-- ===== src/Osc/Translate.antt =====
-- osc_msg_xlate of osc/osc-xlater.c. The results of send are not looked at, and struct input_event is
-- sent as it lies in memory, with 16 bytes of a time that is never set.
pub mod Misread
pub mod Events
pub mod Received
use network_gamepads.Base.{
  ℕ, zero, suc, ◌+◌, ◌/◌, ◌%◌, ℤ, pos, minus_one, Bool, true, false, List, [], ◌∷◌, ◌++◌, Option,
  none, some, length, get_elem?, take, drop, if◌then◌else◌,
}
use network_gamepads.Words.{htole16, htole32}
use network_gamepads.Os.{Os, Trace, Call}
use network_gamepads.Protocol.{message_data, input_buffer_size}
use network_gamepads.Network.{stored}
use network_gamepads.Args.{strcmp}
use network_gamepads.Osc.{Floats, OscChannel, OscControl}
use network_gamepads.Osc.Parse.{strlen, OscMessage, osc_parse, osc_param_float}

-- send(fd, object, sizeof(object), 0)
abbrev pub send : ℤ → List ℕ → Trace → Trace
send fd object t = Call.send fd object 0 (length object) ∷ t

-- struct input_event: the time, the type, the code and the value.
unfoldable pub input_event : List ℕ → ℕ → ℕ → ℕ → List ℕ
unfolding htole16 htole32
input_event time type code value = time ++ (htole16 type ++ (htole16 code ++ htole32 value))

-- The byte MESSAGE_DATA, and then the event.
unfoldable pub send_event : ℤ → List ℕ → ℕ → ℕ → ℕ → Trace → Trace
unfolding input_event
send_event fd time type code value t =
    send fd (input_event time type code value) (send fd (message_data ∷ []) t)

module _ {F : Type 0} (fl : Floats F) (fd : ℤ) (time : List ℕ) where
  -- The channels from `c` on; `none` is a read outside of the arguments or of the channels.
  send_channels : OscControl F → List ℕ → ℕ → ℕ → Trace → Option Trace
  unfolding send_event
  send_channels control args c zero t = some t
  send_channels control args c (suc left) t = elim (get_elem? control.channels c) [
    | none ↦ none
    | some channel ↦ elim (osc_param_float fl args c) [
      | none ↦ none
      | some value ↦
          send_channels control args (suc c) left
            (send_event fd time control.type channel.code (fl.rounded value) t)
    ]
  ]

  -- The events of a control, and EV_SYN with SYN_REPORT behind them.
  pub send_control : OscControl F → List ℕ → Trace → Option Trace
  unfolding send_channels
  send_control control args t = elim (send_channels control args 0 control.num_channels t) [
    | none ↦ none
    | some t' ↦ some (send_event fd time 0 0 0 t')
  ]

  -- The loop over osc_controls, which ends at a control with no path.
  unfoldable pub find_control : List (OscControl F) → List ℕ → List ℕ → Trace → Option Trace
  unfolding send_control
  find_control [] path args t = some t
  find_control (control ∷ controls) path args t =
      let rest = find_control controls path args t in
      elim control.path [
        | none ↦ some t
        | some own ↦ if strcmp own path then send_control control args t else rest
      ]

  pub xlate_parsed :
      List (OscControl F) → List ℕ → Option (Option OscMessage) → Trace → Option (ℤ × Trace)
  unfolding find_control
  xlate_parsed controls mem none t = none
  xlate_parsed controls mem (some none) t = some (minus_one, t)
  xlate_parsed controls mem (some (some m)) t = elim (strlen mem) [
    | none ↦ none
    | some n ↦ elim (find_control controls (take n mem) (drop m.args mem) t) [
      | none ↦ none
      | some t' ↦ some (pos 0, t')
    ]
  ]

  -- `mem` is the buffer as it was before.
  unfoldable pub osc_msg_xlate : Os → ℤ → List (OscControl F) → List ℕ → Trace → Option (ℤ × Trace)
  unfolding xlate_parsed
  osc_msg_xlate os osc_fd controls mem t =
      let call = Call.recv osc_fd input_buffer_size in
      elim (os.recv_reply t call) [
        | none ↦ some (minus_one, call ∷ t)
        | some [] ↦ some (minus_one, call ∷ t)
        | some (b ∷ bs) ↦
            xlate_parsed controls (stored mem 0 (b ∷ bs))
              (osc_parse (stored mem 0 (b ∷ bs)) (length (b ∷ bs))) (call ∷ t)
      ]
