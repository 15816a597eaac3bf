-- ===== src/Server/Access/Refinement.antt =====
-- client_data of server/input-server.c against the machine of Server/Access.
use network_gamepads.Base.{
  ℕ, ◌≡◌, ap, Bool, ◌⊎◌, inl, inr, List, [], ◌∷◌, Option, none, some, arith, drop, get_elem?,
  Option-cases, ◌+◌, ◌%◌,
}
use network_gamepads.Os.{Os, InputEvent}
use network_gamepads.Protocol.{
  message_password_required, message_setup_required, message_success, message_invalid,
  message_invalid_password, message_reserved_unconn,
}
use network_gamepads.Network.Sending.{written, written-send_message}
use network_gamepads.Uinput.{create_device}
use network_gamepads.Uinput.Events.{cleanup_device-Quiet, create_device-Quiet}
use network_gamepads.Server.State.{Config, Session}
use network_gamepads.Server.Handlers.{
  handle_password, handle_absinfo, handle_device, handle_setup_required, handle_quit,
  handle_request_event, append_event, handle_setup_end, handle_data,
}
use network_gamepads.Server.Data.{dispatch, client_data_round, client_data}
use network_gamepads.Server.Data.Loop.{Returns, Rounds, client_data_inv}
use network_gamepads.Server.Access.{
  View, IsVerdict, Step, answered, prepared, reopened, pressed, left, stayed, Reach, here, next,
}

abbrev pub view : Session → View
view s = record { status = s.client.status; events = written s.trace }

-- One event more.
abbrev OneMore : List InputEvent → List InputEvent → Type 0
OneMore es [] = ⊥
OneMore es (x ∷ xs) = xs ≡ es

OneMore-cons : (es es' : List InputEvent) → OneMore es es' → (e : InputEvent) × (es' ≡ e ∷ es)
OneMore-cons es [] h = elim h [ ]
OneMore-cons es (x ∷ xs) h = (x, ap (◌∷◌ x) h)

-- The steps of the machine as a sum.
abbrev Moves : View → View → Type 0
Moves v w =
    ((v.status ≡ message_password_required) × IsVerdict w.status × (w.events ≡ v.events))
    ⊎ ((v.status ≡ message_setup_required) × (w.status ≡ message_success) × (w.events ≡ v.events))
    ⊎ ((v.status ≡ message_success) × (w.status ≡ message_setup_required) × (w.events ≡ v.events))
    ⊎ ((v.status ≡ message_success) × (w.status ≡ v.status) × OneMore v.events w.events)
    ⊎ ((w.status ≡ message_reserved_unconn) × (w.events ≡ v.events))
    ⊎ ((w.status ≡ v.status) × (w.events ≡ v.events))

Moves-Step : (v w : View) → Moves v w → Step v w
Moves-Step v w (inl (a, b, c)) = answered a b c
Moves-Step v w (inr (inl (a, b, c))) = prepared a b c
Moves-Step v w (inr (inr (inl (a, b, c)))) = reopened a b c
Moves-Step v w (inr (inr (inr (inl (a, b, c))))) =
    let (e, more) = OneMore-cons v.events w.events c in pressed e a b more
Moves-Step v w (inr (inr (inr (inr (inl (a, b)))))) = left a b
Moves-Step v w (inr (inr (inr (inr (inr (a, b)))))) = stayed a b

abbrev Moved {ℓ} : {A : Type ℓ} → Session → Option (A × Session) → Type 0
Moved s none = Unit
Moved s (some (r, s')) = Moves (view s) (view s')

handle_password-Moved :
    (os : Os) (config : Config) (msg : List ℕ) (s : Session)
    → Moved s (handle_password os config msg s)
unfolding handle_password
handle_password-Moved os config msg s = ground (
  arith,
  written-send_message os s.client.fd (message_invalid_password ∷ []) s.trace,
  written-send_message os s.client.fd (message_setup_required ∷ []) s.trace,
  written-send_message os s.client.fd (message_success ∷ []) s.trace,
)

handle_setup_required-Moved : (os : Os) (s : Session) → Moved s (handle_setup_required os s)
unfolding handle_setup_required
handle_setup_required-Moved os s =
    ground (arith, written-send_message os s.client.fd (message_setup_required ∷ []) s.trace)

handle_absinfo-Moved : (msg : List ℕ) (s : Session) → Moved s (handle_absinfo msg s)
unfolding handle_absinfo
handle_absinfo-Moved msg s = ground arith

handle_device-Moved : (os : Os) (msg : List ℕ) (s : Session) → Moved s (handle_device os msg s)
unfolding handle_device
handle_device-Moved os msg s = ground arith

handle_request_event-Moved :
    (os : Os) (config : Config) (msg : List ℕ) (s : Session)
    → Moved s (handle_request_event os config msg s)
unfolding handle_request_event append_event
handle_request_event-Moved os config msg s =
    ground (arith, written-send_message os s.client.fd (message_invalid ∷ []) s.trace)

handle_setup_end-Moved : (os : Os) (slot : ℕ) (s : Session) → Moved s (handle_setup_end os slot s)
unfolding handle_setup_end
handle_setup_end-Moved os slot s = elim (Option-cases (create_device os s)) [
  | inl e ↦ ground (arith, written-send_message os s.client.fd (message_invalid ∷ []) s.trace)
  | inr ((created, s'), e) ↦ ground (
    arith,
    create_device-Quiet os s,
    written-send_message os s.client.fd (message_invalid ∷ []) s.trace,
    written-send_message os s'.client.fd (message_success ∷ (slot + 1) % 256 ∷ []) s'.trace,
  )
]

handle_quit-Moved : (os : Os) (s : Session) → Moved s (handle_quit os s)
unfolding handle_quit
handle_quit-Moved os s = ground (arith, cleanup_device-Quiet os s)

handle_data-Moved : (os : Os) (msg : List ℕ) (s : Session) → Moved s (handle_data os msg s)
unfolding handle_data
handle_data-Moved os msg s = ground arith

dispatch-Moved :
    (os : Os) (config : Config) (slot kind : ℕ) (msg : List ℕ) (s : Session)
    → Moved s (dispatch os config slot kind msg s)
unfolding dispatch
dispatch-Moved os config slot kind msg s = ground (
  arith,
  handle_password-Moved os config msg s,
  handle_absinfo-Moved msg s,
  handle_device-Moved os msg s,
  handle_request_event-Moved os config msg s,
  handle_setup_required-Moved os s,
  handle_setup_end-Moved os slot s,
  handle_data-Moved os msg s,
)

round-Moved :
    (os : Os) (config : Config) (slot : ℕ) (s : Session)
    → Moved s (client_data_round os config slot s)
unfolding client_data_round
round-Moved os config slot s =
    let msg : List ℕ = drop s.client.scan_offset s.client.input_buffer in
    elim (Option-cases (get_elem? msg 0)) [
      | inl e ↦ ground arith
      | inr (kind, e) ↦
          ground (arith, dispatch-Moved os config slot kind msg s, handle_quit-Moved os s)
    ]

Reach-view :
    (v : View) (s s' : Session) → Reach v (view s) → Moves (view s) (view s') → Reach v (view s')
Reach-view v s s' r m = next r (Moves-Step (view s) (view s') m)

Moved-Rounds :
    (v : View) (s : Session) (r : Option (Option Bool × Session))
    → Reach v (view s)
    → Moved s r
    → Rounds (λ s'. Reach v (view s')) (λ b s'. Reach v (view s')) r
Moved-Rounds v s none h m = tt
Moved-Rounds v s (some (some b, s')) h m = Reach-view v s s' h m
Moved-Rounds v s (some (none, s')) h m = Reach-view v s s' h m

-- Whatever a client sends, the status that client_data leaves and the events that it has written are
-- reached by steps of the machine: a status changes only as the machine says, and an event is
-- written only while the status is SUCCESS.
pub client_data-Reach :
    (os : Os) (config : Config) (slot : ℕ) (s : Session)
    → Returns (λ b s'. Reach (view s) (view s')) (client_data os config slot s)
client_data-Reach os config slot s =
    client_data_inv os config slot (λ s'. Reach (view s) (view s'))
      (λ b s'. Reach (view s) (view s'))
      (λ s' h e.
        Moved-Rounds (view s) s' (client_data_round os config slot s') h
          (round-Moved os config slot s'))
      (λ s' h. h) s here
