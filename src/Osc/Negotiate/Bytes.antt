-- ===== src/Osc/Negotiate/Bytes.antt =====
-- The bytes of the messages of osc/osc-xlater.c, as protocol/protocol.md lays them out.
use network_gamepads.Base.{
  ℕ, suc, ◌+◌, ◌/◌, ◌%◌, ◌<◌, ◌≡◌, refl, sym, ap, ◌∙◌, ℤ, List, [], ◌∷◌, ◌++◌, some, length, take,
  replicate, arith, length-append,
}
use network_gamepads.Os.{Trace, Call}
use network_gamepads.Words.{htole16, htole32}
use network_gamepads.Osc.{gamepad_controls}
use network_gamepads.Osc.Translate.{send}
use network_gamepads.Osc.Negotiate.{
  absinfo_message, send_absinfo, enable_control, enable_controls, enable_codes, pw_msg, dev_msg,
}
use network_gamepads.Osc.Negotiate.Steps.{take-length}

-- The calls that ask for keys and give the ranges of axes, with the bytes of their messages.
abbrev pub ask_keys : ℤ → List ℕ → Trace → Trace
ask_keys fd [] t = t
ask_keys fd (key ∷ keys) t =
    ask_keys fd keys (Call.send fd (6 ∷ 1 ∷ 0 ∷ key % 256 ∷ key / 256 ∷ []) 0 5 ∷ t)

abbrev pub give_ranges : ℤ → List ℕ → Trace → Trace
give_ranges fd [] t = t
give_ranges fd (axis ∷ axes) t =
    give_ranges fd axes (Call.send fd (3 ∷ axis ∷ replicate 8 0 ++ 255 ∷ replicate 15 0) 0 26 ∷ t)

-- The gamepad: ten keys and six axes.
abbrev pub describe : ℤ → Trace → Trace
describe fd t = give_ranges fd (0 ∷ 1 ∷ 3 ∷ 4 ∷ 16 ∷ 17 ∷ []) (
    ask_keys fd (0x130 ∷ 0x131 ∷ 0x133 ∷ 0x134 ∷ 0x13B ∷ 0x13A ∷ 0x136 ∷ 0x137 ∷ 0x13D ∷ 0x13E ∷ [])
      t)

pub enable_codes-describe : (fd : ℤ) (t : Trace) → enable_codes fd t ≡ some (describe fd t)
unfolding enable_codes enable_controls enable_control send_absinfo absinfo_message gamepad_controls
    htole16 htole32
enable_codes-describe fd t = refl

abbrev pub give_password : ℤ → List ℕ → Trace → Trace
give_password fd password t =
    Call.send fd (2 ∷ suc (length password) ∷ (password ++ 0 ∷ [])) 0 (length password + 3) ∷ t

abbrev pub give_device : ℤ → List ℕ → Trace → Trace
give_device fd devname t =
    Call.send fd (4 ∷ suc (length devname) ∷ replicate 8 0 ++ (devname ++ 0 ∷ [])) 0
      (length devname + 11)
    ∷ t

pub pw_msg-bytes :
    (fd : ℤ) (password : List ℕ) (t : Trace)
    → length password < 255
    → send fd (pw_msg password) t ≡ give_password fd password t
unfolding pw_msg
pw_msg-bytes fd password t short =
    let n : ℕ = (length password + 1) % 256 in
    let small : n ≡ suc (length password) = omega arith in
    let size : length (password ++ 0 ∷ []) ≡ suc (length password) =
      length-append password (0 ∷ []) ∙ omega arith in
    let whole : take n (password ++ 0 ∷ []) ≡ password ++ 0 ∷ [] =
      take-length (password ++ 0 ∷ []) n (size ∙ sym small) in
    let object : 2 ∷ n ∷ take n (password ++ 0 ∷ [])
        ≡ 2 ∷ suc (length password) ∷ (password ++ 0 ∷ []) =
      ground arith in
    ap (λ o. send fd o t) object
    ∙ ap (λ k. Call.send fd (2 ∷ suc (length password) ∷ (password ++ 0 ∷ [])) 0 k ∷ t)
        (omega (arith, size))

pub dev_msg-bytes :
    (fd : ℤ) (devname : List ℕ) (t : Trace)
    → length devname < 255
    → send fd (dev_msg devname) t ≡ give_device fd devname t
unfolding dev_msg
dev_msg-bytes fd devname t short =
    let n : ℕ = (length devname + 1) % 256 in
    let small : n ≡ suc (length devname) = omega arith in
    let size : length (devname ++ 0 ∷ []) ≡ suc (length devname) =
      length-append devname (0 ∷ []) ∙ omega arith in
    let whole : take n (devname ++ 0 ∷ []) ≡ devname ++ 0 ∷ [] =
      take-length (devname ++ 0 ∷ []) n (size ∙ sym small) in
    let object : 4 ∷ n ∷ replicate 8 0 ++ take n (devname ++ 0 ∷ [])
        ≡ 4 ∷ suc (length devname) ∷ replicate 8 0 ++ (devname ++ 0 ∷ []) =
      ground arith in
    ap (λ o. send fd o t) object
    ∙ ap
        (λ k.
          Call.send fd (4 ∷ suc (length devname) ∷ replicate 8 0 ++ (devname ++ 0 ∷ [])) 0 k ∷ t)
        (omega (arith, size))
