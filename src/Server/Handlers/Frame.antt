-- ===== src/Server/Handlers/Frame.antt =====
-- What every handler of server/input-server.c leaves alone: the connection and the buffer. The bytes
-- it reports as used are the size of its message.
use network_gamepads.Base.{
  ℕ, ◌+◌, ◌≡◌, ◌⊎◌, ℤ, pos, is_neg, true, List, Option, none, some, arith, get_elem?,
}
use network_gamepads.Os.{Os}
use network_gamepads.Protocol.{
  sizeof_password, sizeof_absinfo, sizeof_request_event, sizeof_device, sizeof_data,
}
use network_gamepads.Uinput.Setup.{create_device-Keeps}
use network_gamepads.Server.State.{Config, Session, Keeps}
use network_gamepads.Server.Handlers.{
  handle_password, handle_absinfo, handle_device, handle_setup_required, handle_request_event,
  append_event, handle_setup_end, handle_data,
}

-- The connection and the buffer are as before, and the result is -1 or the given size.
abbrev pub Uses : Session → ℤ → Option (ℤ × Session) → Type 0
Uses s size none = Unit
Uses s size (some (r, s')) = Keeps s s' × ((is_neg r ≡ true) ⊎ (r ≡ size))

-- The same where the size depends on the second byte of the message.
abbrev pub UsesMore : Session → List ℕ → ℕ → Option (ℤ × Session) → Type 0
UsesMore s msg header none = Unit
UsesMore s msg header (some (r, s')) =
    Keeps s s'
    × ((is_neg r ≡ true) ⊎ ((len : ℕ) × (get_elem? msg 1 ≡ some len) × (r ≡ pos (header + len))))

pub handle_password-UsesMore :
    (os : Os) (config : Config) (msg : List ℕ) (s : Session)
    → UsesMore s msg sizeof_password (handle_password os config msg s)
unfolding handle_password
handle_password-UsesMore os config msg s = ground arith

pub handle_absinfo-Uses :
    (msg : List ℕ) (s : Session) → Uses s (pos sizeof_absinfo) (handle_absinfo msg s)
unfolding handle_absinfo
handle_absinfo-Uses msg s = ground arith

pub handle_device-UsesMore :
    (os : Os) (msg : List ℕ) (s : Session) → UsesMore s msg sizeof_device (handle_device os msg s)
unfolding handle_device
handle_device-UsesMore os msg s = ground arith

pub handle_setup_required-Uses :
    (os : Os) (s : Session) → Uses s (pos 1) (handle_setup_required os s)
unfolding handle_setup_required
handle_setup_required-Uses os s = ground arith

pub handle_request_event-Uses :
    (os : Os) (config : Config) (msg : List ℕ) (s : Session)
    → Uses s (pos sizeof_request_event) (handle_request_event os config msg s)
unfolding handle_request_event append_event
handle_request_event-Uses os config msg s = ground arith

pub handle_setup_end-Uses :
    (os : Os) (slot : ℕ) (s : Session) → Uses s (pos 1) (handle_setup_end os slot s)
unfolding handle_setup_end
handle_setup_end-Uses os slot s = ground (arith, create_device-Keeps os s)

pub handle_data-Uses :
    (os : Os) (msg : List ℕ) (s : Session) → Uses s (pos sizeof_data) (handle_data os msg s)
unfolding handle_data
handle_data-Uses os msg s = ground arith
