-- ===== src/Uinput/Setup.antt =====
-- What create_device and cleanup_device do to the client (server/uinput.c).
use network_gamepads.Base.{ℤ, Bool, Option, none, some, arith}
use network_gamepads.Os.{Os}
use network_gamepads.Server.State.{DeviceMeta, Session, Keeps}
use network_gamepads.Uinput.{create_on, create_device, cleanup_device}

abbrev pub Holds : (Bool → Session → Type 0) → Option (Bool × Session) → Type 0
Holds P none = Unit
Holds P (some (b, s)) = P b s

create_on-Keeps :
    (os : Os) (fd : ℤ) (meta : DeviceMeta) (s : Session)
    → Holds (λ b s'. Keeps s s') (create_on os fd meta s)
unfolding create_on
create_on-Keeps os fd meta s = ground arith

pub create_device-Keeps : (os : Os) (s : Session) → Holds (λ b s'. Keeps s s') (create_device os s)
unfolding create_device
create_device-Keeps os s = ground arith

pub cleanup_device-Keeps :
    (os : Os) (s : Session) → Holds (λ b s'. Keeps s s') (cleanup_device os s)
unfolding cleanup_device
cleanup_device-Keeps os s = ground arith
