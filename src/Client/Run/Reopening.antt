-- ===== src/Client/Run/Reopening.antt =====
-- The attempts and the descriptors of device_reopen (client/input-client.c).
use network_gamepads.Base.{
  ℕ, zero, suc, ◌+◌, ◌<◌, ◌≤◌, ◌≡◌, ◌⊎◌, inl, inr, ℤ, pos, minus_one, is_neg, true, false, List, [],
  ◌∷◌, Option, none, some, arith, if◌then◌else◌, Bool-cases,
}
use network_gamepads.Os.{Os, Trace, Call}
use network_gamepads.Network.Connecting.Sockets.{remove, same_refl}
use network_gamepads.Client.Run.{Signals, device_reopen}

-- The devices that are open after the calls, of those opened by them.
abbrev pub open_devices : Os → Trace → List ℤ
open_devices os [] = []
open_devices os (Call.open_device ∷ t) =
    if is_neg (os.result t Call.open_device)
    then open_devices os t
    else os.result t Call.open_device ∷ open_devices os t
open_devices os (Call.close fd ∷ t) = remove fd (open_devices os t)
open_devices os (_ ∷ t) = open_devices os t

-- How often open was called.
abbrev pub tries : Trace → ℕ
tries [] = 0
tries (Call.open_device ∷ t) = suc (tries t)
tries (_ ∷ t) = tries t

-- The last call has grabbed the device.
abbrev pub Grabbed : Os → ℤ → Trace → Type 0
Grabbed os fd (Call.grab fd' ∷ t) = (fd' ≡ fd) × (is_neg (os.result t (Call.grab fd')) ≡ false)
Grabbed os fd _ = ⊥

-- The result, after at most n calls of open: a device that is open and grabbed, the only one that is
-- new, or an error and none that is new.
abbrev pub Reopened : Os → ℕ → Trace → Option (ℤ × ℤ × Trace) → Type 0
Reopened os n t none = ⊥
Reopened os n t (some (status, fd, t')) =
    (tries t' ≤ n + tries t)
    × (((status ≡ pos 0)
          × (is_neg fd ≡ false)
          × (open_devices os t' ≡ fd ∷ open_devices os t)
          × Grabbed os fd t')
        ⊎ ((status ≡ minus_one) × (open_devices os t' ≡ open_devices os t)))

retried :
    (os : Os) (n : ℕ) (t : Trace) (r : Option (ℤ × ℤ × Trace))
    → is_neg (os.result t Call.open_device) ≡ true
    → Reopened os n (Call.sleep ∷ Call.open_device ∷ t) r
    → Reopened os (suc n) t r
retried os n t none e h = h
retried os n t (some (status, fd', t')) e h = ground arith

-- With `n` attempts and more fuel, device_reopen ends after at most n calls of open, with a device
-- that is open and grabbed or with an error, and no other device is left open.
pub device_reopen-Reopened :
    (os : Os) (signals : Signals) (n fuel : ℕ) (fd : ℤ) (t : Trace)
    → n < fuel
    → Reopened os n t (device_reopen os signals fuel (pos n) fd t)
unfolding device_reopen
device_reopen-Reopened os signals n zero fd t h = absurd (omega arith)
device_reopen-Reopened os signals zero (suc fuel) fd t h = ground arith
device_reopen-Reopened os signals (suc n) (suc fuel) fd t h =
    let fd' : ℤ = os.result t Call.open_device in
    let opened : Trace = Call.open_device ∷ t in
    elim (Bool-cases (signals.quit t)) [
      | inl q ↦ ground arith
      | inr q ↦ elim (Bool-cases (is_neg fd')) [
        | inl e ↦ ground (
          arith,
          retried os n t (device_reopen os signals fuel (pos n) fd' (Call.sleep ∷ opened)) e
              (device_reopen-Reopened os signals n fuel fd' (Call.sleep ∷ opened) (omega arith)),
        )
        | inr e ↦ elim (Bool-cases (is_neg (os.result opened (Call.grab fd')))) [
          | inl g ↦ ground (arith, same_refl fd')
          | inr g ↦ ground arith
        ]
      ]
    ]
