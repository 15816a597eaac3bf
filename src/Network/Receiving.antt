-- ===== src/Network/Receiving.antt =====
-- Receiving a message: recv_message of common/network.h. The buffer is its bytes, `length buf` the
-- parameter len.
pub mod Bounds
use network_gamepads.Base.{
  ℕ, zero, suc, ◌+◌, ◌-◌, ℤ, pos, negsuc, minus_one, is_pos, Bool, true, false, ◌&&◌, List, [], ◌∷◌,
  Option, none, some, length, ltb, leb, if◌then◌else◌,
}
use network_gamepads.Os.{Os, Trace, Call}
use network_gamepads.Protocol.{get_size_from_command}
use network_gamepads.Network.{stored}

-- The condition of the loop does not hold.
abbrev pub has_all : ℤ → ℕ → Bool
has_all (negsuc k) bytes = false
has_all (pos n) bytes = leb 1 n && leb n bytes

-- length_needed and bytes after `status` bytes have come. A negative length makes recv_message
-- return -1, and `none` is a read outside of the buffer.
unfoldable pub measure : ℤ → List ℕ → ℕ → ℕ → Option (ℤ × ℕ)
measure needed buf bytes status =
    if is_pos needed
    then some (needed, bytes + status)
    else elim (get_size_from_command buf status) [
      | none ↦ none
      | some (negsuc k) ↦ some (negsuc k, bytes)
      | some (pos zero) ↦ some (pos 0, suc bytes + status)
      | some (pos (suc n)) ↦ some (pos (suc n), bytes + status)
    ]

-- The loop on fuel. recv takes the room that is left as a size_t, and `none` is a negative one, which
-- is far outside of the buffer.
unfoldable pub recv_loop : Os → ℤ → ℕ → ℕ → ℤ → ℕ → List ℕ → Trace → Option (ℤ × List ℕ × Trace)
recv_loop os fd len zero needed bytes buf t = none
recv_loop os fd len (suc fuel) needed bytes buf t = elim (has_all needed bytes) [
  | true ↦ some (pos bytes, buf, t)
  | false ↦ elim (ltb len bytes) [
    | true ↦ none
    | false ↦ elim (os.recv_reply t (Call.recv fd (len - bytes))) [
      | none ↦ some (minus_one, buf, Call.recv fd (len - bytes) ∷ t)
      | some [] ↦ some (minus_one, buf, Call.recv fd (len - bytes) ∷ t)
      | some (b ∷ bs) ↦ elim (measure needed (stored buf bytes (b ∷ bs)) bytes (suc (length bs))) [
        | none ↦ none
        | some (negsuc k, bytes') ↦
            some (minus_one, stored buf bytes (b ∷ bs), Call.recv fd (len - bytes) ∷ t)
        | some (pos n, bytes') ↦
            recv_loop os fd len fuel (pos n) bytes' (stored buf bytes (b ∷ bs))
              (Call.recv fd (len - bytes) ∷ t)
      ]
    ]
  ]
]

-- The loop from the bytes that are there; each round takes a byte or more.
unfoldable pub recv_from : Os → ℤ → ℤ → ℕ → List ℕ → Trace → Option (ℤ × List ℕ × Trace)
recv_from os fd needed bytes buf t =
    recv_loop os fd (length buf) (suc (length buf)) needed bytes buf t

-- The start with the bytes of an old buffer.
recv_more : Os → ℤ → ℕ → List ℕ → Trace → Option (ℤ × List ℕ × Trace)
unfolding recv_from
recv_more os fd oldlen buf t = elim (get_size_from_command buf 0) [
  | none ↦ none
  | some (negsuc k) ↦ some (minus_one, buf, t)
  | some (pos zero) ↦ recv_from os fd (pos 0) (suc oldlen) buf t
  | some (pos (suc n)) ↦ recv_from os fd (pos (suc n)) oldlen buf t
]

-- `old` is empty where oldbuf is NULL or oldlen is 0.
unfoldable pub recv_message : Os → ℤ → List ℕ → List ℕ → Trace → Option (ℤ × List ℕ × Trace)
unfolding recv_more
recv_message os fd buf [] t = recv_from os fd minus_one 0 buf t
recv_message os fd buf (o ∷ os') t =
    if ltb (length buf) (length (o ∷ os'))
    then none
    else recv_more os fd (length (o ∷ os')) (stored buf 0 (o ∷ os')) t
