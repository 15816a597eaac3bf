-- ===== src/Server/Access.antt =====
-- What a client may do, as an abstract machine: its status, and the events that reach its device.
-- client_data of server/input-server.c refines it.
pub mod Refinement
use network_gamepads.Base.{ℕ, ◌≡◌, ◌⊎◌, List, ◌∷◌}
use network_gamepads.Os.{InputEvent}
use network_gamepads.Protocol.{
  message_password_required, message_invalid_password, message_setup_required, message_success,
  message_reserved_unconn,
}

-- The events are those written since the server started, the newest first.
pub record View : Type 0 where
  pub status : ℕ
  pub events : List InputEvent

-- What a password can lead to.
abbrev pub IsVerdict : ℕ → Type 0
IsVerdict status =
    (status ≡ message_invalid_password)
    ⊎ (status ≡ message_setup_required)
    ⊎ (status ≡ message_success)

pub data Step (v w : View) : Type 0 where
  answered :
      v.status ≡ message_password_required → IsVerdict w.status → w.events ≡ v.events → Step v w
  prepared :
      v.status ≡ message_setup_required
      → w.status ≡ message_success
      → w.events ≡ v.events
      → Step v w
  reopened :
      v.status ≡ message_success
      → w.status ≡ message_setup_required
      → w.events ≡ v.events
      → Step v w
  pressed :
      (e : InputEvent)
      → v.status ≡ message_success
      → w.status ≡ v.status
      → w.events ≡ e ∷ v.events
      → Step v w
  left : w.status ≡ message_reserved_unconn → w.events ≡ v.events → Step v w
  stayed : w.status ≡ v.status → w.events ≡ v.events → Step v w

pub data Reach (v : View) : View → Type 0 where
  here : Reach v v
  next : {w u : View} → Reach v w → Step w u → Reach v u
