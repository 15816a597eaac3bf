-- ===== src/Server/Hello/Slots.antt =====
-- Which slot client_hello of server/input-server.c gives to a new connection.
use network_gamepads.Base.{
  ℕ, zero, suc, ◌≡◌, ◌≢◌, refl, ap, sym, ◌∙◌, inl, inr, ℤ, pos, minus_one, is_pos, Bool, true,
  false, List, [], ◌∷◌, Option, none, some, arith, get_elem?, set, get_elem?-set_self,
  get_elem?-set_ne, lt-of-get_elem?, replicate, Option-cases, Bool-cases,
}
use native.Mathlib.Decide.{ℕ_discrete}
use network_gamepads.Os.{Os}
use network_gamepads.Network.{send_message}
use network_gamepads.Protocol.{input_buffer_size}
use network_gamepads.Server.State.{Config, GamepadClient}
use network_gamepads.Server.Hello.{Lobby, find_slot, reject, greeting, greet, welcome}

pub find_slot-some :
    (test : GamepadClient → Bool) (cs : List GamepadClient) (u : ℕ)
    → find_slot test cs ≡ some u
    → (c : GamepadClient) × (get_elem? cs u ≡ some c) × (test c ≡ true)
unfolding find_slot
find_slot-some test [] u e = cc
find_slot-some test (c ∷ cs) zero e = (c, refl, ground arith)
find_slot-some test (c ∷ cs) (suc u) e = find_slot-some test cs u (ground arith)

abbrev pub fd_of : Option GamepadClient → Option ℤ
fd_of none = none
fd_of (some c) = some c.fd

-- The descriptor of a slot.
abbrev pub fd_at : List GamepadClient → ℕ → Option ℤ
fd_at cs j = fd_of (get_elem? cs j)

-- The same clients but for slot `u`, which has the same connection.
abbrev pub Near : ℕ → List GamepadClient → List GamepadClient → Type 0
Near u cs ds = ((j : ℕ) → j ≢ u → get_elem? ds j ≡ get_elem? cs j) × (fd_at ds u ≡ fd_at cs u)

Near-fd_at : (u : ℕ) (cs ds : List GamepadClient) → Near u cs ds → (j : ℕ) → fd_at ds j ≡ fd_at cs j
Near-fd_at u cs ds n j = elim (ℕ_discrete j u) [ yes e ↦ rw e n.1 | no ne ↦ ap fd_of (n.0 j ne) ]

pub Near-set :
    (u : ℕ) (cs : List GamepadClient) (c d : GamepadClient)
    → get_elem? cs u ≡ some c
    → d.fd ≡ c.fd
    → Near u cs (set cs u d)
Near-set u cs c d e f = (
  λ j ne. get_elem?-set_ne cs u j d (λ q. ne (sym q)),
  ap fd_of (get_elem?-set_self cs u d (lt-of-get_elem? cs u c e)) ∙ ap some f ∙ sym (ap fd_of e),
)

-- What a negotiation that is over has done to the array of clients, given the descriptor of the
-- waiting client. `true`: one slot, which had no open connection, has got the waiting one, and the
-- others are as before. `false`: no slot has another connection than before. In both cases the
-- waiting slot is free again.
abbrev pub Negotiated : List GamepadClient → ℤ → Option (Bool × Lobby) → Type 0
Negotiated cs w none = Unit
Negotiated cs w (some (true, l)) =
    (u : ℕ) × (c d : GamepadClient) × (get_elem? cs u ≡ some c)
    × (is_pos c.fd ≡ false)
    × (get_elem? l.clients u ≡ some d)
    × (d.fd ≡ w)
    × ((j : ℕ) → j ≢ u → get_elem? l.clients j ≡ get_elem? cs j)
    × (l.waiter.fd ≡ minus_one)
Negotiated cs w (some (false, l)) =
    (l.waiter.fd ≡ minus_one) × ((j : ℕ) → fd_at l.clients j ≡ fd_at cs j)

pub reject-Negotiated :
    (os : Os) (reason : ℕ) (cs : List GamepadClient) (l : Lobby)
    → ((j : ℕ) → fd_at l.clients j ≡ fd_at cs j)
    → Negotiated cs l.waiter.fd (reject os reason l)
unfolding reject
reject-Negotiated os reason cs l h = (refl, h)

greet-Negotiated :
    (os : Os) (status u : ℕ) (cs : List GamepadClient) (c c' : GamepadClient) (l : Lobby)
    → get_elem? cs u ≡ some c
    → is_pos c.fd ≡ false
    → get_elem? l.clients u ≡ some c'
    → Near u cs l.clients
    → Negotiated cs l.waiter.fd (some (greet os status u c' l))
unfolding greet
greet-Negotiated os status u cs c c' l e f g n =
    elim (Bool-cases (send_message os l.waiter.fd (status ∷ []) l.trace).0) [
      | inl sent ↦
          rw (sent, greet)
            (
              u,
              c,
              record c' {
                fd = l.waiter.fd;
                scan_offset = 0;
                bytes_available = pos 0;
                input_buffer = replicate input_buffer_size 0;
                status = status;
              },
              e,
              f,
              get_elem?-set_self l.clients u _ (lt-of-get_elem? l.clients u c' g),
              refl,
              (λ j ne. get_elem?-set_ne l.clients u j _ (λ q. ne (sym q)) ∙ n.0 j ne),
              refl,
            )
      | inr lost ↦ rw (lost, greet) (refl, Near-fd_at u cs l.clients n)
    ]

pub welcome-Negotiated :
    (os : Os) (config : Config) (u : ℕ) (cs : List GamepadClient) (c : GamepadClient) (l : Lobby)
    → get_elem? cs u ≡ some c
    → is_pos c.fd ≡ false
    → Near u cs l.clients
    → Negotiated cs l.waiter.fd (welcome os config u l)
unfolding welcome
welcome-Negotiated os config u cs c l e f n = elim (Option-cases (get_elem? l.clients u)) [
  | inl g ↦ unfold welcome in rw (g, welcome) tt
  | inr (c', g) ↦
      rw (g, welcome) (greet-Negotiated os (greeting config c'.ev_fd) u cs c c' l e f g n)
]

pub Near-refl : (u : ℕ) (cs : List GamepadClient) → Near u cs cs
Near-refl u cs = (λ j ne. refl, refl)
