-- ===== src/Osc/Negotiate/Talk.antt =====
-- The conversation that input_negotiate of osc/osc-xlater.c has with the server.
use network_gamepads.Base.{
  ℕ, ◌≡◌, ℤ, pos, minus_one, Bool, false, List, [], ◌∷◌, Option, none, some, ◌==◌, if◌then◌else◌,
}
use network_gamepads.Os.{Os, Trace, Call}
use network_gamepads.Network.{stored}
use network_gamepads.Osc.Translate.{send}
use network_gamepads.Osc.Negotiate.{Progress, holds}
use network_gamepads.Osc.Negotiate.Bytes.{describe, give_password, give_device}

-- The first byte of what was received.
abbrev starts : Option (List ℕ) → ℕ → Bool
starts none kind = false
starts (some []) kind = false
starts (some (x ∷ xs)) kind = x == kind

module _ (os : Os) (fd : ℤ) (devname password : List ℕ) where
  -- After these calls the server answers with a message of this type.
  abbrev pub says : Trace → ℕ → Bool
  says t kind = starts (os.recv_reply t (Call.recv fd 2)) kind

  abbrev pub say_hello : Trace → Trace
  say_hello t = Call.send fd (1 ∷ 5 ∷ 0 ∷ []) 0 3 ∷ t

  abbrev pub await : Trace → Trace
  await t = Call.recv fd 2 ∷ t

  abbrev pub end_setup : Trace → Trace
  end_setup t = Call.send fd (5 ∷ []) 0 1 ∷ t

  -- The password is sent if the server asks for it with PASSWORD_REQUIRED.
  abbrev pub identify : Trace → Trace
  identify t = if says t 0xF5 then give_password fd password (await t) else t

  -- The device is described if the server asks for it with SETUP_REQUIRED.
  abbrev pub present : Trace → Trace
  present t = if says t 0xF6 then end_setup (describe fd (give_device fd devname (await t))) else t

  -- The result, and all calls with the last answer: 0 exactly if this answer is SUCCESS.
  abbrev pub outcome : Trace → ℤ × Trace
  outcome t = (if says t 0xF0 then pos 0 else minus_one, await t)

  abbrev hears : Option (List ℕ) → ℕ → Bool
  hears none kind = false
  hears (some buf) kind = holds buf kind

  -- The buffer holds an answer of which the first byte is SETUP_REQUIRED, or SUCCESS.
  abbrev Hears : Option (List ℕ) → Trace → Progress → Type 0
  Hears reply t p =
      (p.1 ≡ t) × (hears p.0 0xF6 ≡ starts reply 0xF6) × (hears p.0 0xF0 ≡ starts reply 0xF0)

  heard : Option (List ℕ) → List ℕ → Trace → Progress
  heard none buf t = (none, t)
  heard (some []) buf t = (none, t)
  heard (some (b ∷ bs)) buf t = (some (stored buf 0 (b ∷ bs)), t)

  -- The progress after a step whose last call was a recv behind `t`.
  abbrev At : Trace → Progress → Type 0
  At t p = Hears (os.recv_reply t (Call.recv fd 2)) (await t) p
