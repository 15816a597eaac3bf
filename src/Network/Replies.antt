-- ===== src/Network/Replies.antt =====
-- What recv(2) answers, and the buffer that it stores in.
use network_gamepads.Base.{
  ℕ, zero, suc, ◌<◌, All, All-append, All-drop, ◌+◌, ◌≤◌, ◌≡◌, refl, ◌⊎◌, inl, inr, ℤ, List, [],
  ◌∷◌, ◌++◌, Option, none, some, arith, length, take, drop, length-append, length-take, length-drop,
}
use network_gamepads.Os.{Os, Call, Trace}
use network_gamepads.Network.{stored}

-- recv(2) gives no more bytes than it was asked for.
abbrev pub IsBounded : Os → Type 0
IsBounded os =
    (t : Trace) (fd : ℤ) (n : ℕ) (bytes : List ℕ)
    → os.recv_reply t (Call.recv fd n) ≡ some bytes
    → length bytes ≤ n

abbrev pub AreBytes : List ℕ → Type 0
AreBytes = All (λ b. b < 256)

-- recv(2) gives bytes.
abbrev pub GivesBytes : Os → Type 0
GivesBytes os =
    (t : Trace) (call : Call) (bytes : List ℕ) → os.recv_reply t call ≡ some bytes → AreBytes bytes

AreBytes-take : (n : ℕ) (xs : List ℕ) → AreBytes xs → AreBytes (take n xs)
AreBytes-take zero xs h = tt
AreBytes-take (suc n) [] h = tt
AreBytes-take (suc n) (x ∷ xs) h = (h.0, AreBytes-take n xs h.1)

pub stored-AreBytes :
    (buffer bytes : List ℕ) (n : ℕ)
    → AreBytes buffer
    → AreBytes bytes
    → AreBytes (stored buffer n bytes)
stored-AreBytes buffer bytes n h h' =
    All-append (λ b. b < 256) (take n buffer) (bytes ++ drop (n + length bytes) buffer)
      (AreBytes-take n buffer h)
      (All-append (λ b. b < 256) bytes (drop (n + length bytes) buffer) h'
        (All-drop (λ b. b < 256) (n + length bytes) buffer h))

pub length-stored :
    (buffer bytes : List ℕ) (n : ℕ)
    → n + length bytes ≤ length buffer
    → length (stored buffer n bytes) ≡ length buffer
length-stored buffer bytes n h = omega (
  arith,
  length-append (take n buffer) (bytes ++ drop (n + length bytes) buffer),
  length-append bytes (drop (n + length bytes) buffer),
  length-take n buffer,
  length-drop (n + length bytes) buffer,
)

pub Reply-cases :
    (r : Option (List ℕ))
    → (r ≡ none) ⊎ (r ≡ some []) ⊎ ((b : ℕ) × (bs : List ℕ) × (r ≡ some (b ∷ bs)))
Reply-cases none = inl refl
Reply-cases (some []) = inr (inl refl)
Reply-cases (some (b ∷ bs)) = inr (inr (b, bs, refl))
