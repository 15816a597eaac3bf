-- ===== src/Network/Receiving/Bounds.antt =====
-- What recv_message of common/network.h returns.
use network_gamepads.Base.{
  ℕ, zero, suc, ◌+◌, ◌-◌, ◌≤◌, ◌<◌, ◌≡◌, refl, sym, subst, ◌∙◌, inl, inr, ℤ, pos, negsuc, minus_one,
  false, List, [], ◌∷◌, Option, none, some, length, is_pos, arith, Option-cases,
}
use network_gamepads.Os.{Os, Trace, Call}
use network_gamepads.Protocol.{get_size_from_command}
use network_gamepads.Network.{stored}
use network_gamepads.Network.Replies.{
  AreBytes, GivesBytes, IsBounded, Reply-cases, length-stored, stored-AreBytes,
}
use network_gamepads.Network.Receiving.{measure, recv_loop, recv_from, recv_message}

-- A length that is read from the buffer; it is 0 only for one byte.
abbrev IsSize : ℕ → Option ℤ → Type 0
IsSize status none = ⊥
IsSize status (some (pos zero)) = status ≡ 1
IsSize status (some (pos (suc n))) = Unit
IsSize status (some (negsuc k)) = Unit

get_size_from_command-IsSize :
    (x y : ℕ) (buf : List ℕ) (n : ℕ)
    → y < 256
    → IsSize (suc n) (get_size_from_command (x ∷ y ∷ buf) (suc n))
unfolding get_size_from_command
get_size_from_command-IsSize x y buf n h = ground arith

get_size_from_command-IsSize_buffer :
    (buf : List ℕ) (n : ℕ)
    → 2 ≤ length buf
    → AreBytes buf
    → IsSize (suc n) (get_size_from_command buf (suc n))
get_size_from_command-IsSize_buffer [] n h bytes = absurd (omega arith)
get_size_from_command-IsSize_buffer (x ∷ []) n h bytes = absurd (omega arith)
get_size_from_command-IsSize_buffer (x ∷ y ∷ buf) n h bytes =
    get_size_from_command-IsSize x y buf n bytes.1.0

-- -1, or a number of bytes from 1 to len, and a buffer of len bytes.
abbrev pub Receives : ℕ → Option (ℤ × List ℕ × Trace) → Type 0
Receives len none = ⊥
Receives len (some (pos n, buf, t)) = (1 ≤ n) × (n ≤ len) × (length buf ≡ len) × AreBytes buf
Receives len (some (negsuc k, buf, t)) = (k ≡ 0) × (length buf ≡ len) × AreBytes buf

-- The loop once the length is known.
recv_loop-known :
    (os : Os) (fd : ℤ) (len fuel n bytes : ℕ) (buf : List ℕ) (t : Trace)
    → IsBounded os
    → GivesBytes os
    → AreBytes buf
    → length buf ≡ len
    → bytes ≤ len
    → len < fuel + bytes
    → Receives len (recv_loop os fd len fuel (pos (suc n)) bytes buf t)
unfolding recv_loop measure
recv_loop-known os fd len zero n bytes buf t bound gives byte size le lt = absurd (omega arith)
recv_loop-known os fd len (suc fuel) n bytes buf t bound gives byte size le lt =
    elim (Reply-cases (os.recv_reply t (Call.recv fd (len - bytes)))) [
      | inl e ↦ ground arith
      | inr (inl e) ↦ ground arith
      | inr (inr (b, bs, e)) ↦
          let fits : length (b ∷ bs) ≤ len - bytes = bound t fd (len - bytes) (b ∷ bs) e in
          ground (
            arith,
            recv_loop-known os fd len fuel n (bytes + suc (length bs)) (stored buf bytes (b ∷ bs))
                (Call.recv fd (len - bytes) ∷ t) bound gives
                (stored-AreBytes buf (b ∷ bs) bytes byte (gives t _ (b ∷ bs) e))
                (length-stored buf (b ∷ bs) bytes (omega arith) ∙ size) (omega arith) (omega arith),
          )
    ]

-- The loop before: every round that does not tell the length adds two to the count.
recv_loop-unknown :
    (os : Os) (fd : ℤ) (h fuel k bytes : ℕ) (needed : ℤ) (buf : List ℕ) (t : Trace)
    → IsBounded os
    → GivesBytes os
    → AreBytes buf
    → bytes ≡ k + k
    → is_pos needed ≡ false
    → length buf ≡ h + h
    → 1 ≤ h
    → k ≤ h
    → h + h < fuel + bytes
    → Receives (h + h) (recv_loop os fd (h + h) fuel needed bytes buf t)
unfolding recv_loop measure
recv_loop-unknown os fd h zero k bytes needed buf t bound gives byte even none_yet size pos_h le
      lt =
    absurd (omega arith)
recv_loop-unknown os fd h (suc fuel) k bytes needed buf t bound gives byte even none_yet size pos_h
      le lt =
    elim (Reply-cases (os.recv_reply t (Call.recv fd (h + h - bytes)))) [
      | inl e ↦ ground arith
      | inr (inl e) ↦ ground arith
      | inr (inr (b, bs, e)) ↦
          let fits : length (b ∷ bs) ≤ h + h - bytes = bound t fd (h + h - bytes) (b ∷ bs) e in
          let buf' : List ℕ = stored buf bytes (b ∷ bs) in
          let t' : Trace = Call.recv fd (h + h - bytes) ∷ t in
          let size' : length buf' ≡ h + h = length-stored buf (b ∷ bs) bytes (omega arith) ∙ size in
          let byte' : AreBytes buf' =
            stored-AreBytes buf (b ∷ bs) bytes byte (gives t _ (b ∷ bs) e) in
          let known : IsSize (suc (length bs)) (get_size_from_command buf' (suc (length bs))) =
            get_size_from_command-IsSize_buffer buf' (length bs) (omega arith) byte' in
          elim (Option-cases (get_size_from_command buf' (suc (length bs)))) [
            | inl e' ↦ ground arith
            | inr (negsuc v, e') ↦ ground arith
            | inr (pos zero, e') ↦
                let one : suc (length bs) ≡ 1 = subst (IsSize (suc (length bs))) e' known in
                ground (
                  arith,
                  recv_loop-unknown os fd h fuel (suc k) (suc bytes + suc (length bs)) (pos 0) buf'
                      t' bound gives byte' (omega arith) refl size' pos_h (omega arith)
                      (omega arith),
                )
            | inr (pos (suc n), e') ↦ ground (
              arith,
              recv_loop-known os fd (h + h) fuel n (bytes + suc (length bs)) buf' t' bound gives
                  byte' size' (omega arith) (omega arith),
            )
          ]
    ]

-- recv_message with no old buffer, as the client calls it, always ends, and stays inside of its
-- buffer, if that has a size that is even and not 0. It returns -1 or a count from 1 to the size of
-- the buffer.
pub recv_message-Receives :
    (os : Os) (fd : ℤ) (h : ℕ) (buf : List ℕ) (t : Trace)
    → IsBounded os
    → GivesBytes os
    → AreBytes buf
    → length buf ≡ h + h
    → 1 ≤ h
    → Receives (h + h) (recv_message os fd buf [] t)
unfolding recv_message recv_from
recv_message-Receives os fd h buf t bound gives byte size pos_h =
    subst (λ len. Receives (h + h) (recv_loop os fd len (suc len) minus_one 0 buf t)) (sym size)
      (recv_loop-unknown os fd h (suc (h + h)) 0 0 minus_one buf t bound gives byte refl refl size
        pos_h (omega arith) (omega arith))
