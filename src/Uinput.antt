-- ===== src/Uinput.antt =====
-- The virtual input device: server/uinput.c. A device is made by a chain of uinput requests, each of
-- which may fail; the constants are those of linux/input-event-codes.h.
pub mod Setup
pub mod Events
pub mod Ownership
use network_gamepads.Base.{
  ℕ, zero, suc, ◌+◌, ℤ, pos, minus_one, is_neg, Bool, true, false, not, ◌||◌, List, [], ◌∷◌, Option,
  none, some, leb, ◌==◌, if◌then◌else◌,
}
use network_gamepads.Os.{Os, Trace, Call, Request, AbsInfo}
use network_gamepads.Server.State.{
  EnabledEvent, DeviceMeta, GamepadClient, Session, Proc, ret, when◌then◌else◌, ◌>>=◌, ◌>>◌, client,
  modify, lift, sys, ev_max, empty_meta, uinput_max_name_size,
}

-- A nonzero result of ioctl is a failure.
abbrev pub fails : ℤ → Bool
fails (pos n) = not (n == 0)
fails _ = true

-- enable_map; EV_SYN and every other type are not in it.
enable_map : ℕ → Option (ℕ → Request)
enable_map type =
    if type == 0x01
    then some Request.set_keybit
    else if type == 0x02
    then some Request.set_relbit
    else if type == 0x03
    then some Request.set_absbit
    else if type == 0x04
    then some Request.set_mscbit
    else none

-- One round of the loop of enable_events: whether it goes on, the new last_type, and the calls.
enable_event : Os → ℤ → EnabledEvent → ℕ → Trace → Bool × ℕ × Trace
unfolding enable_map
enable_event os fd e last t = elim (enable_map e.type) [
  | none ↦ (not (fails (os.result t syn)), last, syn ∷ t)
  | some bit ↦
      let key = Call.ioctl fd (bit e.code) in
      if e.type == last
      then (not (fails (os.result t key)), last, key ∷ t)
      else if fails (os.result t kind)
      then (false, last, kind ∷ t)
      else (not (fails (os.result (kind ∷ t) key)), e.type, key ∷ kind ∷ t)
]
  where
    syn : Call
    syn = Call.ioctl fd (Request.set_evbit 0)

    kind : Call
    kind = Call.ioctl fd (Request.set_evbit e.type)

enable_loop : Os → ℤ → List EnabledEvent → ℕ → Trace → Bool × Trace
unfolding enable_event
enable_loop os fd [] last t = (true, t)
enable_loop os fd (e ∷ es) last t =
    let (ok, last', t') = enable_event os fd e last t in
    let rest = enable_loop os fd es last' t' in if ok then rest else (false, t')

unfoldable pub enable_events : Os → ℤ → DeviceMeta → Trace → Bool × Trace
unfolding enable_loop
enable_events os fd meta t = enable_loop os fd meta.enabled_events ev_max t

-- strncpy: at most `n` bytes, up to the terminator; `none` is a read outside of the block.
c_string : List ℕ → ℕ → Option (List ℕ)
c_string m zero = some []
c_string [] (suc n) = none
c_string (x ∷ m) (suc n) =
    let rest = c_string m n in
    if x == 0 then some [] else elim rest [ none ↦ none | some name ↦ some (x ∷ name) ]

-- meta->name may be NULL.
device_name : DeviceMeta → Option (List ℕ)
unfolding c_string
device_name meta = elim meta.name [ none ↦ none | some block ↦ c_string block 79 ]

-- One round of the loop over the axes.
setup_axis : Os → ℤ → ℕ → AbsInfo → Trace → Bool × Trace
setup_axis os fd u info t =
    if not (info.maximum == 0) || not (info.minimum == 0)
    then (if fails (os.result t setup)
        then (false, Call.close fd ∷ setup ∷ t)
        else (true, setup ∷ t))
    else (true, t)
  where
    setup : Call
    setup = Call.ioctl fd (Request.abs_setup u info)

setup_axes : Os → ℤ → ℕ → List AbsInfo → Trace → Bool × Trace
unfolding setup_axis
setup_axes os fd u [] t = (true, t)
setup_axes os fd u (info ∷ infos) t =
    let (ok, t') = setup_axis os fd u info t in
    let rest = setup_axes os fd (u + 1) infos t' in if ok then rest else (false, t')

-- The ioctl setup of uinput version 5 and later. A failing UI_DEV_SETUP is only logged.
new_setup : Os → ℤ → DeviceMeta → List ℕ → Trace → Bool × Trace
unfolding setup_axes
new_setup os fd meta name t =
    if fails (os.result t setup)
    then (true, setup ∷ t)
    else setup_axes os fd 0 meta.absinfo (setup ∷ t)
  where
    setup : Call
    setup = Call.ioctl fd (Request.dev_setup name meta.id)

-- The deprecated setup by a write.
old_setup : Os → ℤ → DeviceMeta → List ℕ → Trace → Bool × Trace
old_setup os fd meta name t =
    if is_neg (os.result t setup) then (false, Call.close fd ∷ setup ∷ t) else (true, setup ∷ t)
  where
    setup : Call
    setup = Call.write_user_dev fd name meta.id meta.absinfo

-- UI_DEV_CREATE; only now the client owns the device.
finish_device : Os → ℤ → Proc Bool
finish_device os fd = do
  created ← sys os (Call.ioctl fd Request.dev_create)
  when fails created
      then (do _ ← sys os (Call.close fd); ret false)
      else (do modify (λ c. record c { ev_fd = fd }); ret true)

unfoldable pub configure : Os → ℤ → DeviceMeta → Trace → Option (Bool × Trace)
unfolding device_name new_setup old_setup
configure os fd meta t = elim (device_name meta) [
  | none ↦ none
  | some name ↦
      some
        (if leb 5 (os.version t) then new_setup os fd meta name t else old_setup os fd meta name t)
]

-- The part of create_device behind the version query.
create_on : Os → ℤ → DeviceMeta → Proc Bool
unfolding finish_device
create_on os fd meta s =
    let (enabled, t) = enable_events os fd meta s.trace in
    if enabled
    then (elim (configure os fd meta t) [
      | none ↦ none
      | some (ok, t') ↦
          if ok
          then finish_device os fd (record s { trace = t' })
          else some (false, record s { trace = t' })
    ])
    else some (false, record s { trace = Call.close fd ∷ t })

unfoldable pub create_device : Os → Proc Bool
unfolding create_on
create_device os = do
  c ← client
  fd ← sys os Call.open_uinput
  when is_neg fd then ret false else (do
    queried ← sys os (Call.ioctl fd Request.get_version)
    when fails queried then (do _ ← sys os (Call.close fd); ret false) else create_on os fd c.meta)

unfoldable pub cleanup_device : Os → Proc Bool
unfolding empty_meta
cleanup_device os = do
  c ← client
  when is_neg c.ev_fd then ret true else (do
    destroyed ← sys os (Call.ioctl c.ev_fd Request.dev_destroy)
    when fails destroyed then ret false else (do
      _ ← sys os (Call.close c.ev_fd)
      modify (λ c. record c { ev_fd = minus_one; meta = empty_meta })
      ret true))
