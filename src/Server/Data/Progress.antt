-- ===== src/Server/Data/Progress.antt =====
-- The rounds of the loop of client_data (server/input-server.c).
use network_gamepads.Base.{
  ℕ, zero, suc, ◌≤◌, ◌<◌, ◌≡◌, refl, ◌⊎◌, inl, inr, ℤ, pos_part, is_neg, is_pos, Bool, true, List,
  Option, none, some, arith, get_elem?, drop, Option-cases,
}
use network_gamepads.Os.{Os}
use network_gamepads.Server.State.{Config, Session, Keeps}
use network_gamepads.Server.Handlers.Frame.{
  handle_password-UsesMore, handle_absinfo-Uses, handle_device-UsesMore, handle_setup_required-Uses,
  handle_request_event-Uses, handle_setup_end-Uses, handle_data-Uses,
}
use network_gamepads.Server.Data.{dispatch, client_data_round, client_data_loop}

-- A result that is no error counts at least one byte.
abbrev Progresses : Session → Option (ℤ × Session) → Type 0
Progresses s none = Unit
Progresses s (some (r, s')) = Keeps s s' × ((is_neg r ≡ true) ⊎ (0 < pos_part r))

dispatch-Progresses :
    (os : Os) (config : Config) (slot kind : ℕ) (msg : List ℕ) (s : Session)
    → Progresses s (dispatch os config slot kind msg s)
unfolding dispatch
dispatch-Progresses os config slot kind msg s = ground (
  arith,
  handle_password-UsesMore os config msg s,
  handle_absinfo-Uses msg s,
  handle_device-UsesMore os msg s,
  handle_setup_required-Uses os s,
  handle_request_event-Uses os config msg s,
  handle_setup_end-Uses os slot s,
  handle_data-Uses os msg s,
)

-- A round that goes on leaves fewer bytes.
abbrev pub Shrinks : Session → Option (Option Bool × Session) → Type 0
Shrinks s (some (none, s')) = pos_part s'.client.bytes_available < pos_part s.client.bytes_available
Shrinks s _ = Unit

pub client_data_round-Shrinks :
    (os : Os) (config : Config) (slot : ℕ) (s : Session)
    → is_pos s.client.bytes_available ≡ true
    → Shrinks s (client_data_round os config slot s)
unfolding client_data_round
client_data_round-Shrinks os config slot s h =
    elim (Option-cases (get_elem? (drop s.client.scan_offset s.client.input_buffer) 0)) [
      | inl e ↦ ground arith
      | inr (kind, e) ↦ ground (
        arith,
        dispatch-Progresses os config slot kind (drop s.client.scan_offset s.client.input_buffer) s,
      )
    ]

-- The three ways in which a round ends.
pub Round-cases :
    (r : Option (Option Bool × Session))
    → (r ≡ none)
      ⊎ ((b : Bool) × (s' : Session) × (r ≡ some (some b, s')))
      ⊎ ((s' : Session) × (r ≡ some (none, s')))
Round-cases none = inl refl
Round-cases (some (some b, s')) = inr (inl (b, s', refl))
Round-cases (some (none, s')) = inr (inr (s', refl))

pub client_data_loop_fuel :
    (os : Os) (config : Config) (slot f g : ℕ) (s : Session)
    → pos_part s.client.bytes_available ≤ f
    → pos_part s.client.bytes_available ≤ g
    → client_data_loop os config slot f s ≡ client_data_loop os config slot g s
unfolding client_data_loop
client_data_loop_fuel os config slot zero zero s hf hg = refl
client_data_loop_fuel os config slot zero (suc g) s hf hg = ground arith
client_data_loop_fuel os config slot (suc f) zero s hf hg = ground arith
client_data_loop_fuel os config slot (suc f) (suc g) s hf hg =
    elim (Round-cases (client_data_round os config slot s)) [
      | inl e ↦ ground arith
      | inr (inl (b, s', e)) ↦ ground arith
      | inr (inr (s', e)) ↦ ground (
        arith,
        client_data_round-Shrinks os config slot s,
        client_data_loop_fuel os config slot f g s',
      )
    ]
