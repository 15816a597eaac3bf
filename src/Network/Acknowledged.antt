-- ===== src/Network/Acknowledged.antt =====
-- The calls that send_message of common/network.h makes, and what its result says.
use network_gamepads.Base.{
  ℕ, zero, suc, ◌+◌, ◌-◌, ◌<◌, ◌≤◌, ◌≡◌, refl, sym, ap, subst, ◌⊎◌, inl, inr, ℤ, Bool, true, false,
  List, [], ◌∷◌, arith, length, drop,
}
use network_gamepads.Os.{Os, Trace, Call, SendReply}
use network_gamepads.Network.{send_loop, send_message}

abbrev count : SendReply → ℕ
count SendReply.failed = 0
count (SendReply.accepted k) = suc k

-- How many bytes the system has taken in the newest n calls.
abbrev pub acknowledged : Os → ℕ → Trace → ℕ
acknowledged os zero t = 0
acknowledged os (suc n) [] = 0
acknowledged os (suc n) (c ∷ t) = acknowledged os n t + count (os.send_reply t c)

-- The newest n calls send the object, each from the first byte on that the ones before have left.
abbrev pub Continues : Os → ℤ → List ℕ → ℕ → Trace → Type 0
Continues os fd object zero t = Unit
Continues os fd object (suc n) [] = ⊥
Continues os fd object (suc n) (c ∷ t) =
    (c ≡ Call.send fd object (acknowledged os n t) (length object)) × Continues os fd object n t

-- Behind the trace before come n calls, and the result says whether they took the whole object.
abbrev pub Acknowledges : Os → ℤ → List ℕ → Trace → Bool × Trace → Type 0
Acknowledges os fd object t (sent, t') =
    (n : ℕ) × (n ≤ length object)
    × (drop n t' ≡ t)
    × Continues os fd object n t'
    × (((sent ≡ true) × (length object ≤ acknowledged os n t'))
        ⊎ ((sent ≡ false) × (acknowledged os n t' < length object)))

reply-cases : (r : SendReply) → (r ≡ SendReply.failed) ⊎ ((k : ℕ) × (r ≡ SendReply.accepted k))
reply-cases SendReply.failed = inl refl
reply-cases (SendReply.accepted k) = inr (k, refl)

module _ (os : Os) (fd : ℤ) (object : List ℕ) where
  send_loop-failed :
      (fuel offset bytes : ℕ) (t : Trace)
      → 0 < bytes
      → os.send_reply t (Call.send fd object offset (length object)) ≡ SendReply.failed
      → send_loop os fd object (length object) (suc fuel) offset bytes t
        ≡ (false, Call.send fd object offset (length object) ∷ t)
  unfolding send_loop
  send_loop-failed fuel offset bytes t more e = ground arith

  send_loop-accepted :
      (fuel offset bytes k : ℕ) (t : Trace)
      → 0 < bytes
      → os.send_reply t (Call.send fd object offset (length object)) ≡ SendReply.accepted k
      → send_loop os fd object (length object) (suc fuel) offset bytes t
        ≡ send_loop os fd object
            (length object)
            fuel
            (offset + suc k)
            (bytes - suc k)
            (Call.send fd object offset (length object) ∷ t)
  unfolding send_loop
  send_loop-accepted fuel offset bytes k t more e = ground arith

  send_loop-done :
      (fuel offset : ℕ) (t : Trace)
      → send_loop os fd object (length object) fuel offset 0 t ≡ (true, t)
  unfolding send_loop
  send_loop-done zero offset t = refl
  send_loop-done (suc fuel) offset t = ground arith

  send_loop-Acknowledges :
      (fuel n offset bytes : ℕ) (t t0 : Trace)
      → offset ≡ acknowledged os n t
      → n ≤ offset
      → n ≤ length object
      → drop n t ≡ t0
      → Continues os fd object n t
      → bytes ≡ length object - offset
      → bytes ≤ fuel
      → Acknowledges os fd object t0 (send_loop os fd object (length object) fuel offset bytes t)
  send_loop-Acknowledges fuel n offset zero t t0 at le room before calls left enough =
      subst (Acknowledges os fd object t0) (sym (send_loop-done fuel offset t))
        (n, room, before, calls, inl (refl, omega arith))
  send_loop-Acknowledges zero n offset (suc bytes) t t0 at le room before calls left enough =
      absurd (omega arith)
  send_loop-Acknowledges (suc fuel) n offset (suc bytes) t t0 at le room before calls left enough =
      let call : Call = Call.send fd object offset (length object) in
      let calls' : Continues os fd object (suc n) (call ∷ t) =
        (ap (λ i. Call.send fd object i (length object)) at, calls) in
      elim (reply-cases (os.send_reply t call)) [
        | inl e ↦
            subst (Acknowledges os fd object t0)
              (sym (send_loop-failed fuel offset (suc bytes) t (omega arith) e))
              (suc n, omega arith, before, calls', inr (refl, ground arith))
        | inr (k, e) ↦
            subst (Acknowledges os fd object t0)
              (sym (send_loop-accepted fuel offset (suc bytes) k t (omega arith) e))
              (send_loop-Acknowledges fuel (suc n) (offset + suc k) (suc bytes - suc k) (call ∷ t)
                t0 (ground arith) (omega arith) (omega arith) before calls' (omega arith)
                (omega arith))
      ]

  -- send_message makes at most as many calls of send as the message has bytes, each with the message
  -- from the first byte on that the system has not taken yet, and its result is true exactly if the
  -- system has taken as many bytes as the message has, or more.
  pub send_message-Acknowledges :
      (t : Trace) → Acknowledges os fd object t (send_message os fd object t)
  unfolding send_message
  send_message-Acknowledges t =
      send_loop-Acknowledges (length object) 0 0 (length object) t t refl (omega arith)
        (omega arith) refl tt (omega arith) (omega arith)
