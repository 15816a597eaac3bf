-- ===== src/Server/Data/Whitelist.antt =====
-- The events that a client may enable (client_data of server/input-server.c).
use network_gamepads.Base.{
  ℕ, ◌≡◌, ◌≢◌, ◌<◌, false, ◌==◌, sym, subst, Bool-cases, ◌+◌, ◌*◌, ◌⊎◌, inl, inr, ℤ, List, [], ◌∷◌,
  Option, none, some, arith, drop, get_elem?, Option-cases, All, All-append,
}
use network_gamepads.Os.{Os}
use network_gamepads.Protocol.{message_request_event}
use network_gamepads.Uinput.Ownership.{create_device-meta}
use network_gamepads.Server.State.{Config, EnabledEvent, Session, ev_max, key_max}
use network_gamepads.Server.Handlers.{
  handle_password, handle_absinfo, handle_device, handle_setup_required, handle_quit,
  handle_request_event, handle_setup_end, handle_data, append_event,
}
use network_gamepads.Server.Data.{dispatch, client_data_round, client_data}
use network_gamepads.Server.Data.Loop.{Returns, Rounds, client_data_inv}

-- The type and the code lie inside of the table, and its entry is not 0.
abbrev pub Allowed : Config → EnabledEvent → Type 0
Allowed config e = (e.type < ev_max) × (e.code < key_max) × (config.whitelist e.type e.code ≢ 0)

abbrev pub AllAllowed : Config → Session → Type 0
AllAllowed config s = All (Allowed config) s.client.meta.enabled_events

abbrev Permits : Config → Option (ℤ × Session) → Type 0
Permits config none = Unit
Permits config (some (r, s')) = AllAllowed config s'

append_event-Permits :
    (os : Os) (config : Config) (e : EnabledEvent) (s : Session)
    → Allowed config e
    → AllAllowed config s
    → Permits config (append_event os e s)
unfolding append_event
append_event-Permits os config e s a h =
    ground (arith, All-append (Allowed config) s.client.meta.enabled_events (e ∷ []) h (a, tt))

handle_request_event-Permits :
    (os : Os) (config : Config) (msg : List ℕ) (s : Session)
    → AllAllowed config s
    → Permits config (handle_request_event os config msg s)
unfolding handle_request_event
handle_request_event-Permits os config msg s h = elim (Option-cases (get_elem? msg 1)) [
  | inl a ↦ ground arith
  | inr (a, ea) ↦ elim (Option-cases (get_elem? msg 2)) [
    | inl b ↦ ground arith
    | inr (b, eb) ↦ elim (Option-cases (get_elem? msg 3)) [
      | inl c ↦ ground arith
      | inr (c, ec) ↦ elim (Option-cases (get_elem? msg 4)) [
        | inl d ↦ ground arith
        | inr (d, ed) ↦ ground (
          arith,
          append_event-Permits os config (record { type = a + 256 * b; code = c + 256 * d }) s,
        )
      ]
    ]
  ]
]

-- The other handlers leave the list as it is, or empty it.
abbrev Shortens : Session → Option (ℤ × Session) → Type 0
Shortens s none = Unit
Shortens s (some (r, s')) =
    (s'.client.meta.enabled_events ≡ s.client.meta.enabled_events)
    ⊎ (s'.client.meta.enabled_events ≡ [])

Shortens-Permits :
    (config : Config) (s : Session) (r : Option (ℤ × Session))
    → AllAllowed config s
    → Shortens s r
    → Permits config r
Shortens-Permits config s none h k = tt
Shortens-Permits config s (some (r, s')) h (inl e) = subst (All (Allowed config)) (sym e) h
Shortens-Permits config s (some (r, s')) h (inr e) = subst (All (Allowed config)) (sym e) tt

handle_setup_end-Shortens :
    (os : Os) (slot : ℕ) (s : Session) → Shortens s (handle_setup_end os slot s)
unfolding handle_setup_end
handle_setup_end-Shortens os slot s = ground (arith, create_device-meta os s)

handle_quit-Shortens : (os : Os) (s : Session) → Shortens s (handle_quit os s)
unfolding handle_quit
handle_quit-Shortens os s = ground arith

others-Shortens :
    (os : Os) (config : Config) (slot kind : ℕ) (msg : List ℕ) (s : Session)
    → (kind == message_request_event) ≡ false
    → Shortens s (dispatch os config slot kind msg s)
unfolding dispatch handle_password handle_absinfo handle_device handle_setup_required handle_data
others-Shortens os config slot kind msg s h = ground (arith, handle_setup_end-Shortens os slot s)

dispatch-Permits :
    (os : Os) (config : Config) (slot kind : ℕ) (msg : List ℕ) (s : Session)
    → AllAllowed config s
    → Permits config (dispatch os config slot kind msg s)
dispatch-Permits os config slot kind msg s h = elim (Bool-cases (kind == message_request_event)) [
  | inr e ↦
      Shortens-Permits config s (dispatch os config slot kind msg s) h
        (others-Shortens os config slot kind msg s e)
  | inl e ↦ unfold dispatch in ground (arith, handle_request_event-Permits os config msg s h)
]

client_data_round-AllAllowed :
    (os : Os) (config : Config) (slot : ℕ) (s : Session)
    → AllAllowed config s
    → Rounds (AllAllowed config) (λ b s'. AllAllowed config s') (client_data_round os config slot s)
unfolding client_data_round
client_data_round-AllAllowed os config slot s h =
    let msg : List ℕ = drop s.client.scan_offset s.client.input_buffer in
    elim (Option-cases (get_elem? msg 0)) [
      | inl e ↦ ground arith
      | inr (kind, e) ↦ ground (
        arith,
        dispatch-Permits os config slot kind msg s h,
        Shortens-Permits config s (handle_quit os s) h (handle_quit-Shortens os s),
      )
    ]

-- Whatever a client sends, each event that is enabled for its device lies inside of the table and is
-- allowed by it, if that was so before.
pub client_data-AllAllowed :
    (os : Os) (config : Config) (slot : ℕ) (s : Session)
    → All (Allowed config) s.client.meta.enabled_events
    → Returns
        (λ b s'. All (Allowed config) s'.client.meta.enabled_events)
        (client_data os config slot s)
client_data-AllAllowed os config slot s h =
    client_data_inv os config slot (AllAllowed config) (λ b s'. AllAllowed config s')
      (λ s' p e. client_data_round-AllAllowed os config slot s' p) (λ s' p. p) s h
