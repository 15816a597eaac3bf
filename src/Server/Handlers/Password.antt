-- ===== src/Server/Handlers/Password.antt =====
-- Which passwords handle_password of server/input-server.c admits.
use network_gamepads.Base.{
  ℕ, zero, suc, ◌+◌, ◌≤◌, ◌≡◌, ◌≢◌, ◌↔◌, refl, ◌⊎◌, inl, inr, ℤ, pos, minus_one, Bool, true, false,
  List, [], ◌∷◌, some, arith, length, get_elem?, take, drop, ◌==◌, if◌then◌else◌, Bool-cases, All,
}
use network_gamepads.Os.{Os}
use network_gamepads.Network.{send_message}
use network_gamepads.Protocol.{
  message_password_required, message_invalid_password, message_setup_required, message_success,
}
use network_gamepads.Server.State.{Config, Session}
use network_gamepads.Server.Handlers.{strncmp, verdict, handle_password}

-- The text that a block of memory starts with: the bytes before the first zero.
abbrev pub text : List ℕ → List ℕ
text [] = []
text (x ∷ m) = let rest = text m in if x == 0 then [] else x ∷ rest

abbrev pub NoNul : List ℕ → Type 0
NoNul = All (λ x. x ≢ 0)

-- strncmp on a string and enough memory: whether the first `n` bytes of the two texts differ.
strncmp_lem :
    (p m : List ℕ) (n : ℕ)
    → NoNul p
    → n ≤ length m
    → (d : Bool) × (strncmp p m n ≡ some d) × ((d ≡ false) ↔ (take n p ≡ take n (text m)))
unfolding strncmp
strncmp_lem p m zero h k = (false, refl, ((λ e. refl), (λ e. refl)))
strncmp_lem p [] (suc n) h k = absurd (omega arith)
strncmp_lem [] (y ∷ m) (suc n) h k = elim (Bool-cases (y == 0)) [
  | inl e ↦ (false, ground arith, (λ f. ground arith, λ f. refl))
  | inr e ↦ (true, ground arith, (λ f. ground arith, λ f. ground arith))
]
strncmp_lem (x ∷ p) (y ∷ m) (suc n) h k =
    let (d, e, iff) = strncmp_lem p m n h.1 (omega arith) in
    elim (Bool-cases (x == y)) [
      | inl same ↦ (d, ground arith, (λ f. ground (arith, iff.0 f), λ f. iff.1 (ground arith)))
      | inr other ↦ (true, ground arith, (λ f. ground arith, λ f. ground arith))
    ]

-- The password of the message: `len` bytes after the header.
abbrev pub Agrees : Config → List ℕ → ℕ → Type 0
Agrees config msg len = take len config.password ≡ take len (text (drop 2 msg))

-- The client has been let in: it has a device already, or may set one up.
abbrev pub IsAdmitted : Session → Type 0
IsAdmitted s = (s.client.status ≡ message_setup_required) ⊎ (s.client.status ≡ message_success)

-- A client that was asked for its password and sends a whole PASSWORD message of `len` bytes is let
-- in exactly when the first `len` bytes of the configured password are those of the text sent, and
-- otherwise has the status INVALID_PASSWORD; the new status is what the reply says.
pub handle_password-admits :
    (os : Os) (config : Config) (msg : List ℕ) (len : ℕ) (s : Session)
    → NoNul config.password
    → s.client.status ≡ message_password_required
    → get_elem? msg 1 ≡ some len
    → len ≤ length (drop 2 msg)
    → (r : ℤ) × (s' : Session) × (handle_password os config msg s ≡ some (r, s'))
      × (IsAdmitted s' ↔ Agrees config msg len)
      × (IsAdmitted s' ⊎ (s'.client.status ≡ message_invalid_password))
      × (s'.trace ≡ (send_message os s.client.fd (s'.client.status ∷ []) s.trace).1)
unfolding handle_password
handle_password-admits os config msg len s nonul h e k =
    let (d, same, iff) = strncmp_lem config.password (drop 2 msg) len nonul k in
    let status : ℕ = verdict d s.client.ev_fd in
    let sent = send_message os s.client.fd (status ∷ []) s.trace in
    (
      (if sent.0 then pos (2 + len) else minus_one),
      record { client = record s.client { status = status }; trace = sent.1 },
      ground arith,
      (λ a. iff.0 (ground arith), λ a. ground (arith, iff.1 a)),
      ground arith,
      refl,
    )
