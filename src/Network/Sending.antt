-- ===== src/Network/Sending.antt =====
-- What send_message does (common/network.h).
use network_gamepads.Base.{
  ℕ, zero, suc, ◌+◌, ◌-◌, ◌≤◌, ◌<◌, ◌≡◌, refl, ◌⊎◌, inl, inr, ℤ, true, List, [], ◌∷◌, ◌++◌, length,
  arith,
}
use mathlib.Core.List.{append_assoc}
use network_gamepads.Os.{Os, Trace, Call, SendReply, InputEvent}
use network_gamepads.Network.{send_loop, send_message}

SendReply-cases : (r : SendReply) → (r ≡ SendReply.failed) ⊎ ((k : ℕ) × (r ≡ SendReply.accepted k))
SendReply-cases SendReply.failed = inl refl
SendReply-cases (SendReply.accepted k) = inr (k, refl)

-- More fuel than bytes changes nothing.
send_loop_fuel :
    (os : Os) (fd : ℤ) (object : List ℕ) (len f g offset bytes : ℕ) (t : Trace)
    → bytes ≤ f
    → bytes ≤ g
    → send_loop os fd object len f offset bytes t ≡ send_loop os fd object len g offset bytes t
unfolding send_loop
send_loop_fuel os fd object len zero zero offset bytes t hf hg = refl
send_loop_fuel os fd object len zero (suc g) offset bytes t hf hg = ground arith
send_loop_fuel os fd object len (suc f) zero offset bytes t hf hg = ground arith
send_loop_fuel os fd object len (suc f) (suc g) offset bytes t hf hg =
    elim (SendReply-cases (os.send_reply t (Call.send fd object offset len))) [
      | inl e ↦ ground arith
      | inr (k, e) ↦ ground (
        arith,
        send_loop_fuel os fd object len f g (offset + suc k) (bytes - suc k)
            (Call.send fd object offset len ∷ t),
      )
    ]

-- The device events among the calls, the newest first.
abbrev pub written : Trace → List InputEvent
written [] = []
written (Call.write_event fd e ∷ t) = e ∷ written t
written (c ∷ t) = written t

written-send_loop :
    (os : Os) (fd : ℤ) (object : List ℕ) (len f offset bytes : ℕ) (t : Trace)
    → written (send_loop os fd object len f offset bytes t).1 ≡ written t
unfolding send_loop
written-send_loop os fd object len zero offset bytes t = refl
written-send_loop os fd object len (suc f) offset bytes t =
    elim (SendReply-cases (os.send_reply t (Call.send fd object offset len))) [
      | inl e ↦ ground arith
      | inr (k, e) ↦ ground (
        arith,
        written-send_loop os fd object len f (offset + suc k) (bytes - suc k)
            (Call.send fd object offset len ∷ t),
      )
    ]

pub written-send_message :
    (os : Os) (fd : ℤ) (object : List ℕ) (t : Trace)
    → written (send_message os fd object t).1 ≡ written t
unfolding send_message
written-send_message os fd object t =
    written-send_loop os fd object (length object) (length object) 0 (length object) t

-- Where the system takes the whole of a message that is not empty at once, send_message makes that
-- one call and succeeds.
pub send_message_whole :
    (os : Os) (fd : ℤ) (object : List ℕ) (t : Trace) (k : ℕ)
    → 0 < length object
    → length object ≤ suc k
    → os.send_reply t (Call.send fd object 0 (length object)) ≡ SendReply.accepted k
    → send_message os fd object t ≡ (true, Call.send fd object 0 (length object) ∷ t)
unfolding send_message send_loop
send_message_whole os fd [] t k h g e = absurd (omega arith)
send_message_whole os fd (x ∷ xs) t k h g e = ground (
  arith,
  send_loop_fuel os fd (x ∷ xs) (suc (length xs)) (length xs) 0 (0 + suc k) 0
      (Call.send fd (x ∷ xs) 0 (suc (length xs)) ∷ t),
)

send_loop_grows :
    (os : Os) (fd : ℤ) (object : List ℕ) (len f offset bytes : ℕ) (t : Trace)
    → (newer : Trace) × ((send_loop os fd object len f offset bytes t).1 ≡ newer ++ t)
unfolding send_loop
send_loop_grows os fd object len zero offset bytes t = ([], refl)
send_loop_grows os fd object len (suc f) offset zero t = ([], refl)
send_loop_grows os fd object len (suc f) offset (suc b) t =
    elim (SendReply-cases (os.send_reply t call)) [
      | inl e ↦ (call ∷ [], ground arith)
      | inr (k, e) ↦
          let (newer, p) =
            send_loop_grows os fd object len f (offset + suc k) (suc b - suc k) (call ∷ t) in
          (newer ++ call ∷ [], ground (arith, p, append_assoc newer (call ∷ []) t))
    ]
  where
    call : Call
    call = Call.send fd object offset len

send_loop_first :
    (os : Os) (fd : ℤ) (object : List ℕ) (len f offset bytes : ℕ) (t : Trace)
    → 0 < bytes
    → (newer : Trace) × ((send_loop os fd object len (suc f) offset bytes t).1
        ≡ newer ++ Call.send fd object offset len ∷ t)
unfolding send_loop
send_loop_first os fd object len f offset bytes t h =
    elim (SendReply-cases (os.send_reply t call)) [
      | inl e ↦ ([], ground arith)
      | inr (k, e) ↦
          let (newer, p) =
            send_loop_grows os fd object len f (offset + suc k) (bytes - suc k) (call ∷ t) in
          (newer, ground (arith, p))
    ]
  where
    call : Call
    call = Call.send fd object offset len

-- The call has the system read behind the end of the object that it is given.
abbrev pub ReadsOutside : Call → Type 0
ReadsOutside (Call.send fd object offset len) = length object < offset + len
ReadsOutside c = ⊥

-- After a partial first send the next one asks for the whole length again, from inside the
-- message, and so has the system read behind its end.
pub send_message_overrun :
    (os : Os) (fd : ℤ) (object : List ℕ) (t : Trace) (k : ℕ)
    → suc k < length object
    → os.send_reply t (Call.send fd object 0 (length object)) ≡ SendReply.accepted k
    → (newer : Trace) × (second : Call) × ((send_message os fd object t).1
        ≡ newer ++ second ∷ Call.send fd object 0 (length object) ∷ t)
      × ReadsOutside second
unfolding send_message send_loop
send_message_overrun os fd [] t k h e = absurd (omega arith)
send_message_overrun os fd (x ∷ []) t k h e = absurd (omega arith)
send_message_overrun os fd (x ∷ y ∷ zs) t k h e =
    let len : ℕ = suc (suc (length zs)) in
    let object : List ℕ = x ∷ y ∷ zs in
    let first : Call = Call.send fd object 0 len in
    let (newer, p) =
      send_loop_first os fd object len (length zs) (0 + suc k) (len - suc k) (first ∷ t)
        (omega arith) in
    (newer, Call.send fd object (0 + suc k) len, ground (arith, p), omega arith)
