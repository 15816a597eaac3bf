-- ===== src/Server/Data/Lockout.antt =====
-- Clients that have not been admitted, in client_data of server/input-server.c.
use network_gamepads.Base.{
  ℕ, ◌≡◌, refl, ◌≢◌, inl, inr, ℤ, List, [], ◌∷◌, Option, none, some, arith, drop, get_elem?,
  Option-cases,
}
use network_gamepads.Os.{Os, InputEvent}
use network_gamepads.Protocol.{
  message_password_required, message_setup_required, message_success, message_invalid,
}
use network_gamepads.Network.Sending.{written, written-send_message}
use network_gamepads.Uinput.Events.{cleanup_device-Quiet}
use network_gamepads.Server.State.{Config, Session}
use network_gamepads.Server.Handlers.{
  handle_password, handle_absinfo, handle_device, handle_setup_required, handle_quit,
  handle_request_event, handle_setup_end, handle_data,
}
use network_gamepads.Server.Data.{dispatch, client_data_round, client_data}
use network_gamepads.Server.Data.Loop.{Returns, Rounds, client_data_inv}

-- None of the statuses in which a message has an effect.
abbrev pub IsLocked : ℕ → Type 0
IsLocked status =
    (status ≢ message_password_required)
    × (status ≢ message_setup_required)
    × (status ≢ message_success)

-- The client is locked out, and the events written are those in `t`.
abbrev pub Silent : List InputEvent → Session → Type 0
Silent es s = IsLocked s.client.status × (written s.trace ≡ es)

abbrev Stays : Session → Option (ℤ × Session) → Type 0
Stays s none = Unit
Stays s (some (r, s')) = IsLocked s'.client.status × (written s'.trace ≡ written s.trace)

dispatch-Stays :
    (os : Os) (config : Config) (slot kind : ℕ) (msg : List ℕ) (s : Session)
    → IsLocked s.client.status
    → Stays s (dispatch os config slot kind msg s)
unfolding dispatch handle_password handle_absinfo handle_device handle_setup_required
    handle_request_event handle_setup_end handle_data
dispatch-Stays os config slot kind msg s h =
    ground (arith, written-send_message os s.client.fd (message_invalid ∷ []) s.trace)

handle_quit-Stays : (os : Os) (s : Session) → IsLocked s.client.status → Stays s (handle_quit os s)
unfolding handle_quit
handle_quit-Stays os s h = ground (arith, cleanup_device-Quiet os s)

client_data_round-Silent :
    (os : Os) (config : Config) (slot : ℕ) (es : List InputEvent) (s : Session)
    → Silent es s
    → Rounds (Silent es) (λ b s'. Silent es s') (client_data_round os config slot s)
unfolding client_data_round
client_data_round-Silent os config slot es s h =
    let msg : List ℕ = drop s.client.scan_offset s.client.input_buffer in
    elim (Option-cases (get_elem? msg 0)) [
      | inl e ↦ ground arith
      | inr (kind, e) ↦
          ground (arith, dispatch-Stays os config slot kind msg s h.0, handle_quit-Stays os s h.0)
    ]

-- If the status of a client is none of PASSWORD_REQUIRED, SETUP_REQUIRED and SUCCESS, then in every
-- run of client_data with defined behaviour no event is written to a device, whatever the client
-- sends, and its status is none of the three at the end.
pub client_data-lockout :
    (os : Os) (config : Config) (slot : ℕ) (s : Session)
    → IsLocked s.client.status
    → Returns
        (λ b s'. IsLocked s'.client.status × (written s'.trace ≡ written s.trace))
        (client_data os config slot s)
client_data-lockout os config slot s h =
    client_data_inv os config slot (Silent (written s.trace)) (λ b s'. Silent (written s.trace) s')
      (λ s' p e. client_data_round-Silent os config slot (written s.trace) s' p) (λ s' p. p) s
      (h, refl)
