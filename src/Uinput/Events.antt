-- ===== src/Uinput/Events.antt =====
-- The input events among the calls of server/uinput.c.
use network_gamepads.Base.{
  ℕ, ◌+◌, ◌≡◌, refl, ℤ, List, [], ◌∷◌, none, some, Option, Bool, arith, inl, inr, Option-cases,
}
use network_gamepads.Os.{Os, Trace, Call, Request, AbsInfo}
use network_gamepads.Network.Sending.{written}
use network_gamepads.Server.State.{ev_max, DeviceMeta, EnabledEvent, Session}
use network_gamepads.Uinput.Setup.{Holds}
use network_gamepads.Uinput.{
  enable_event, enable_loop, enable_events, setup_axis, setup_axes, new_setup, old_setup, configure,
  create_on, device_name, create_device, cleanup_device,
}

written-enable_event :
    (os : Os) (fd : ℤ) (e : EnabledEvent) (last : ℕ) (t : Trace)
    → written (enable_event os fd e last t).2 ≡ written t
unfolding enable_event
written-enable_event os fd e last t = ground arith

written-enable_loop :
    (os : Os) (fd : ℤ) (es : List EnabledEvent) (last : ℕ) (t : Trace)
    → written (enable_loop os fd es last t).1 ≡ written t
unfolding enable_loop
written-enable_loop os fd [] last t = refl
written-enable_loop os fd (e ∷ es) last t =
    let (ok, last', t') = enable_event os fd e last t in
    ground (arith, written-enable_event os fd e last t, written-enable_loop os fd es last' t')

written-setup_axis :
    (os : Os) (fd : ℤ) (u : ℕ) (info : AbsInfo) (t : Trace)
    → written (setup_axis os fd u info t).1 ≡ written t
unfolding setup_axis
written-setup_axis os fd u info t = ground arith

written-setup_axes :
    (os : Os) (fd : ℤ) (u : ℕ) (infos : List AbsInfo) (t : Trace)
    → written (setup_axes os fd u infos t).1 ≡ written t
unfolding setup_axes
written-setup_axes os fd u [] t = refl
written-setup_axes os fd u (info ∷ infos) t = ground (
  arith,
  written-setup_axis os fd u info t,
  written-setup_axes os fd (u + 1) infos (setup_axis os fd u info t).1,
)

written-new_setup :
    (os : Os) (fd : ℤ) (meta : DeviceMeta) (name : List ℕ) (t : Trace)
    → written (new_setup os fd meta name t).1 ≡ written t
unfolding new_setup
written-new_setup os fd meta name t = ground (
  arith,
  written-setup_axes os fd 0 meta.absinfo (Call.ioctl fd (Request.dev_setup name meta.id) ∷ t),
)

written-old_setup :
    (os : Os) (fd : ℤ) (meta : DeviceMeta) (name : List ℕ) (t : Trace)
    → written (old_setup os fd meta name t).1 ≡ written t
unfolding old_setup
written-old_setup os fd meta name t = ground arith

abbrev Configured : Trace → Option (Bool × Trace) → Type 0
Configured t none = Unit
Configured t (some (ok, t')) = written t' ≡ written t

configure-Configured :
    (os : Os) (fd : ℤ) (meta : DeviceMeta) (t : Trace) → Configured t (configure os fd meta t)
unfolding configure
configure-Configured os fd meta t = elim (Option-cases (device_name meta)) [
  | inl e ↦ ground arith
  | inr (name, e) ↦
      ground (arith, written-new_setup os fd meta name t, written-old_setup os fd meta name t)
]

-- No event is written, and the client's status is as before.
abbrev pub Quiet : Session → Bool → Session → Type 0
Quiet s b s' = (written s'.trace ≡ written s.trace) × (s'.client.status ≡ s.client.status)

create_on-Quiet :
    (os : Os) (fd : ℤ) (meta : DeviceMeta) (s : Session) → Holds (Quiet s) (create_on os fd meta s)
unfolding create_on enable_events
create_on-Quiet os fd meta s = ground (
  arith,
  written-enable_loop os fd meta.enabled_events ev_max s.trace,
  configure-Configured os fd meta (enable_events os fd meta s.trace).1,
)

pub create_device-Quiet : (os : Os) (s : Session) → Holds (Quiet s) (create_device os s)
unfolding create_device
create_device-Quiet os s =
    let fd : ℤ = os.result s.trace Call.open_uinput in
    ground (
      arith,
      create_on-Quiet os fd s.client.meta
          (record s { trace = Call.ioctl fd Request.get_version ∷ Call.open_uinput ∷ s.trace }),
    )

pub cleanup_device-Quiet : (os : Os) (s : Session) → Holds (Quiet s) (cleanup_device os s)
unfolding cleanup_device
cleanup_device-Quiet os s = ground arith
