-- ===== src/Server/Data/Refill.antt =====
-- What recv_data of server/input-server.c does to the bytes of the stream that wait in the buffer.
use network_gamepads.Base.{
  ℕ, ◌+◌, ◌-◌, ◌≤◌, ◌<◌, ◌≡◌, refl, ap, ◌∙◌, subst, ◌⊎◌, inl, inr, ℤ, pos, negsuc, pos_part, is_neg,
  Bool, true, false, List, [], ◌∷◌, ◌++◌, Option, none, some, arith, length, take, drop, le→leb,
  length-append, length-take, length-drop, take-append_length,
}
use mathlib.Core.List.{append_assoc}
use network_gamepads.Os.{Os, Call}
use network_gamepads.Protocol.{input_buffer_size}
use network_gamepads.Server.State.{GamepadClient, Session}
use network_gamepads.Server.Data.{recv_data, refill, receive, shifted}
use network_gamepads.Network.{stored}
use network_gamepads.Network.Replies.{IsBounded, Reply-cases, length-stored}

-- The buffer has its size, and the bytes that are available lie inside of it.
pub record IsBuffered (c : GamepadClient) : Type 0 where
  pub size : length c.input_buffer ≡ input_buffer_size
  pub counted : is_neg c.bytes_available ≡ false
  pub within : c.scan_offset + pos_part c.bytes_available ≤ input_buffer_size

-- The bytes received and not yet handled.
abbrev pub pending : GamepadClient → List ℕ
pending c = take (pos_part c.bytes_available) (drop c.scan_offset c.input_buffer)

module _ {ℓ} {A : Type ℓ} where
  take-append : (n : ℕ) (xs ys : List A) → length xs ≡ n → take n (xs ++ ys) ≡ xs
  take-append n xs ys h = subst (λ k. take k (xs ++ ys) ≡ xs) h (take-append_length xs ys)

length-shifted :
    (buffer : List ℕ) (offset n : ℕ)
    → offset + n ≤ length buffer
    → length (shifted buffer offset n) ≡ length buffer
length-shifted buffer offset n h = omega (
  arith,
  length-append (take n (drop offset buffer)) (drop n buffer),
  length-take n (drop offset buffer),
  length-drop offset buffer,
  length-drop n buffer,
)

take-shifted :
    (buffer : List ℕ) (offset n : ℕ)
    → offset + n ≤ length buffer
    → take n (shifted buffer offset n) ≡ take n (drop offset buffer)
take-shifted buffer offset n h =
    take-append n (take n (drop offset buffer)) (drop n buffer)
      (omega (arith, length-take n (drop offset buffer), length-drop offset buffer))

take-stored :
    (buffer bytes : List ℕ) (n : ℕ)
    → n ≤ length buffer
    → take (n + length bytes) (stored buffer n bytes) ≡ take n buffer ++ bytes
take-stored buffer bytes n h =
    rw (← append_assoc (take n buffer) bytes (drop (n + length bytes) buffer)) (
      take-append (n + length bytes) (take n buffer ++ bytes) (drop (n + length bytes) buffer)
        (omega (arith, length-append (take n buffer) bytes, length-take n buffer)))

-- What recv_data finds: the call of recv that it makes, and the system's answer.
abbrev pub recv_call : Session → ℕ → Call
recv_call s n = Call.recv s.client.fd (input_buffer_size - n)

-- The outcome of recv_data: with an answer that holds bytes these bytes, and no others, stand behind
-- those that waited; without, the count of waiting bytes is as before. One call is made.
abbrev pub Refills : Option (List ℕ) → List Call → List ℕ → ℤ → Option (Bool × Session) → Type 0
Refills reply trace waiting available none = ⊥
Refills reply trace waiting available (some (false, s')) =
    ((reply ≡ none) ⊎ (reply ≡ some []))
    × (s'.trace ≡ trace)
    × (s'.client.bytes_available ≡ available)
    × (length s'.client.input_buffer ≡ input_buffer_size)
Refills reply trace waiting available (some (true, s')) =
    (bytes : List ℕ) × (reply ≡ some bytes)
    × (0 < length bytes)
    × (s'.trace ≡ trace)
    × IsBuffered s'.client
    × (pending s'.client ≡ waiting ++ bytes)

receive-Refills :
    (os : Os) (n : ℕ) (s : Session)
    → IsBounded os
    → length s.client.input_buffer ≡ input_buffer_size
    → n ≤ input_buffer_size
    → Refills
        (os.recv_reply s.trace (recv_call s n))
        (recv_call s n ∷ s.trace)
        (take n s.client.input_buffer)
        s.client.bytes_available
        (receive os n s)
unfolding receive
receive-Refills os n s bound size h =
    let buffer : List ℕ = s.client.input_buffer in
    let room : ℕ = input_buffer_size - n in
    elim (Reply-cases (os.recv_reply s.trace (Call.recv s.client.fd room))) [
      | inl e ↦ rw (e, Refills) (inl e, refl, refl, size)
      | inr (inl e) ↦ rw (e, Refills) (inr e, refl, refl, size)
      | inr (inr (b, bs, e)) ↦
          let fits : length (b ∷ bs) ≤ room = bound s.trace s.client.fd room (b ∷ bs) e in
          rw (e, Refills)
            (
              b ∷ bs,
              e,
              omega arith,
              refl,
              record {
                size = length-stored buffer (b ∷ bs) n (omega arith) ∙ size;
                counted = refl;
                within = omega arith;
              },
              take-stored buffer (b ∷ bs) n (omega arith),
            )
    ]

refill-Refills :
    (os : Os) (b : ℤ) (s : Session)
    → IsBounded os
    → IsBuffered s.client
    → s.client.bytes_available ≡ b
    → Refills
        (os.recv_reply s.trace (recv_call s (pos_part b)))
        (recv_call s (pos_part b) ∷ s.trace)
        (take (pos_part b) (drop s.client.scan_offset s.client.input_buffer))
        b
        (refill os b s)
unfolding refill
refill-Refills os (negsuc k) s bound v e = absurd (ground arith)
refill-Refills os (pos n) s bound v e =
    let buffer : List ℕ = s.client.input_buffer in
    let fits : s.client.scan_offset + n ≤ input_buffer_size =
      omega (arith, ap pos_part e, v.within) in
    let moved : Session = record s {
      client = record s.client { input_buffer = shifted buffer s.client.scan_offset n };
    } in
    let kept =
      receive-Refills os n moved bound
        (length-shifted buffer s.client.scan_offset n (omega arith) ∙ v.size) (omega arith) in
    rw (le→leb _ _ fits) (
      subst
        (λ b.
          Refills (os.recv_reply s.trace (recv_call s n)) (recv_call s n ∷ s.trace)
            (take n (drop s.client.scan_offset buffer)) b (receive os n moved))
        e (rw (take-shifted buffer s.client.scan_offset n (omega arith)) at kept))

-- If the bytes that wait lie inside of the buffer and the system gives no more than it is asked for,
-- recv_data reads and writes inside of the buffer only, and makes one call, of recv for the room that
-- is left. It succeeds exactly if the answer holds bytes; then the waiting bytes are those that
-- waited and behind them the bytes of the answer, and they lie inside of the buffer again. Where it
-- fails, the count of waiting bytes is as before.
pub recv_data-Refills :
    (os : Os) (s : Session)
    → IsBounded os
    → IsBuffered s.client
    → Refills
        (os.recv_reply s.trace (recv_call s (pos_part s.client.bytes_available)))
        (recv_call s (pos_part s.client.bytes_available) ∷ s.trace)
        (pending s.client)
        s.client.bytes_available
        (recv_data os s)
unfolding recv_data
recv_data-Refills os s bound v = refill-Refills os s.client.bytes_available s bound v refl
