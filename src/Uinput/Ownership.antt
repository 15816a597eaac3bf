-- ===== src/Uinput/Ownership.antt =====
-- Who owns the descriptor that create_device of server/uinput.c opens.
use network_gamepads.Base.{
  ℕ, ◌+◌, ◌≡◌, inl, inr, ℤ, Bool, true, false, List, [], ◌∷◌, Option, none, some, arith,
  Option-cases,
}
use network_gamepads.Os.{Os, Trace, Call, Request, AbsInfo}
use network_gamepads.Server.State.{DeviceMeta, Session}
use network_gamepads.Uinput.Setup.{Holds}
use network_gamepads.Uinput.{
  setup_axis, setup_axes, new_setup, old_setup, device_name, configure, create_on, create_device,
  enable_events,
}

-- The last call was the close of `fd`.
abbrev pub Closed : ℤ → Trace → Type 0
Closed fd (Call.close d ∷ t) = d ≡ fd
Closed fd _ = ⊥

-- A step that fails has closed the descriptor.
abbrev FailsClosed : ℤ → Bool × Trace → Type 0
FailsClosed fd (true, t) = Unit
FailsClosed fd (false, t) = Closed fd t

setup_axis-FailsClosed :
    (os : Os) (fd : ℤ) (u : ℕ) (info : AbsInfo) (t : Trace)
    → FailsClosed fd (setup_axis os fd u info t)
unfolding setup_axis
setup_axis-FailsClosed os fd u info t = ground arith

setup_axes-FailsClosed :
    (os : Os) (fd : ℤ) (u : ℕ) (infos : List AbsInfo) (t : Trace)
    → FailsClosed fd (setup_axes os fd u infos t)
unfolding setup_axes
setup_axes-FailsClosed os fd u [] t = tt
setup_axes-FailsClosed os fd u (info ∷ infos) t =
    let (ok, t') = setup_axis os fd u info t in
    ground
      (arith, setup_axis-FailsClosed os fd u info t, setup_axes-FailsClosed os fd (u + 1) infos t')

new_setup-FailsClosed :
    (os : Os) (fd : ℤ) (meta : DeviceMeta) (name : List ℕ) (t : Trace)
    → FailsClosed fd (new_setup os fd meta name t)
unfolding new_setup
new_setup-FailsClosed os fd meta name t = ground (
  arith,
  setup_axes-FailsClosed os fd 0 meta.absinfo (Call.ioctl fd (Request.dev_setup name meta.id) ∷ t),
)

old_setup-FailsClosed :
    (os : Os) (fd : ℤ) (meta : DeviceMeta) (name : List ℕ) (t : Trace)
    → FailsClosed fd (old_setup os fd meta name t)
unfolding old_setup
old_setup-FailsClosed os fd meta name t = ground arith

abbrev Configures : ℤ → Option (Bool × Trace) → Type 0
Configures fd none = Unit
Configures fd (some r) = FailsClosed fd r

configure-Configures :
    (os : Os) (fd : ℤ) (meta : DeviceMeta) (t : Trace) → Configures fd (configure os fd meta t)
unfolding configure
configure-Configures os fd meta t = elim (Option-cases (device_name meta)) [
  | inl e ↦ ground arith
  | inr (name, e) ↦
      ground
        (arith, new_setup-FailsClosed os fd meta name t, old_setup-FailsClosed os fd meta name t)
]

-- What becomes of the descriptor `fd` of the device node, for the client of `s`.
abbrev pub Owned : ℤ → Session → Option (Bool × Session) → Type 0
Owned fd s none = Unit
Owned fd s (some (true, s')) = s'.client ≡ record s.client { ev_fd = fd }
Owned fd s (some (false, s')) = (s'.client ≡ s.client) × Closed fd s'.trace

create_on-Owned :
    (os : Os) (fd : ℤ) (meta : DeviceMeta) (s : Session) → Owned fd s (create_on os fd meta s)
unfolding create_on
create_on-Owned os fd meta s =
    ground (arith, configure-Configures os fd meta (enable_events os fd meta s.trace).1)

-- create_device leaves the description of the device alone.
pub create_device-meta :
    (os : Os) (s : Session) → Holds (λ b s'. s'.client.meta ≡ s.client.meta) (create_device os s)
unfolding create_device
create_device-meta os s =
    let fd : ℤ = os.result s.trace Call.open_uinput in
    ground (
      arith,
      create_on-Owned os fd s.client.meta
          (record s { trace = Call.ioctl fd Request.get_version ∷ Call.open_uinput ∷ s.trace }),
    )
