-- ===== src/Network.antt =====
-- Sending over a socket: send_message of common/network.h.
pub mod Sending
pub mod Acknowledged
pub mod Replies
pub mod Receiving
pub mod Connecting
use network_gamepads.Base.{
  ℕ, zero, suc, ◌+◌, ◌-◌, ℤ, Bool, true, false, List, ◌∷◌, ◌++◌, length, take, drop, ltb,
  if◌then◌else◌,
}
use network_gamepads.Os.{Os, Trace, Call, SendReply}

-- The loop of send_message, `bytes` bytes being left to send, from `offset` on. Every call passes
-- the whole length `len`, as the code does. A count above `bytes` leaves nothing to send.
send_loop : Os → ℤ → List ℕ → ℕ → ℕ → ℕ → ℕ → Trace → Bool × Trace
send_loop os fd object len zero offset bytes t = (true, t)
send_loop os fd object len (suc fuel) offset bytes t =
    let call = Call.send fd object offset len in
    let rest : Bool × Trace = elim (os.send_reply t call) [
      | SendReply.failed ↦ (false, call ∷ t)
      | SendReply.accepted k ↦
          send_loop os fd object len fuel (offset + suc k) (bytes - suc k) (call ∷ t)
    ] in
    if ltb 0 bytes then rest else (true, t)

-- Each round takes at least one byte, so `length object` rounds are enough.
unfoldable pub send_message : Os → ℤ → List ℕ → Trace → Bool × Trace
unfolding send_loop
send_message os fd object t = let len = length object in send_loop os fd object len len 0 len t

-- The buffer after the system has stored `bytes` from position `n` on.
abbrev pub stored : List ℕ → ℕ → List ℕ → List ℕ
stored buffer n bytes = take n buffer ++ (bytes ++ drop (n + length bytes) buffer)
