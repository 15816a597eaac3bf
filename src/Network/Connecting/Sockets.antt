-- ===== src/Network/Connecting/Sockets.antt =====
-- Which sockets the functions of common/network.h leave open.
use network_gamepads.Base.{
  ℕ, ◌≡◌, refl, ◌⊎◌, inl, inr, ℤ, pos, negsuc, minus_one, is_neg, Bool, true, false, List, [], ◌∷◌,
  Option, none, some, arith, ◌==◌, if◌then◌else◌, Bool-cases,
}
use network_gamepads.Os.{Os, Trace, Call, SocketOption}
use network_gamepads.Network.Connecting.{
  is_zero, connect_loop, connected, tcp_connect, bind_loop, listening, tcp_listener, bound,
  udp_listener,
}

abbrev pub same : ℤ → ℤ → Bool
same (pos m) (pos n) = m == n
same (negsuc m) (negsuc n) = m == n
same _ _ = false

abbrev pub remove : ℤ → List ℤ → List ℤ
remove fd [] = []
remove fd (x ∷ xs) = if same fd x then xs else x ∷ remove fd xs

-- The sockets that are open after the calls, the newest first.
abbrev pub open_sockets : Os → Trace → List ℤ
open_sockets os [] = []
open_sockets os (Call.socket a ∷ t) =
    if is_neg (os.result t (Call.socket a))
    then open_sockets os t
    else os.result t (Call.socket a) ∷ open_sockets os t
open_sockets os (Call.close fd ∷ t) = remove fd (open_sockets os t)
open_sockets os (_ ∷ t) = open_sockets os t

pub same_refl : (fd : ℤ) → same fd fd ≡ true
same_refl (pos n) = ground arith
same_refl (negsuc n) = ground arith

-- The result is a new socket and the only one that is new, or negative and none is.
abbrev pub Opens : Os → Trace → ℤ × Trace → Type 0
Opens os t (fd, t') =
    ((is_neg fd ≡ false) × (open_sockets os t' ≡ fd ∷ open_sockets os t))
    ⊎ ((is_neg fd ≡ true) × (open_sockets os t' ≡ open_sockets os t))

-- The last round of tcp_connect.
abbrev Tried : Os → Trace → ℤ × ℤ × Trace → Type 0
Tried os t (fd, error, t') =
    ((is_neg fd ≡ false) × (is_zero error ≡ true) × (open_sockets os t' ≡ fd ∷ open_sockets os t))
    ⊎ (((is_neg fd ≡ true) ⊎ (is_zero error ≡ false)) × (open_sockets os t' ≡ open_sockets os t))

connect_loop-Tried :
    (os : Os) (rest : List ℕ) (fd error : ℤ) (t t0 : Trace)
    → (is_neg fd ≡ true) ⊎ (is_zero error ≡ false)
    → open_sockets os t ≡ open_sockets os t0
    → Tried os t0 (connect_loop os rest fd error t)
unfolding connect_loop
connect_loop-Tried os [] fd error t t0 h e = inr (h, e)
connect_loop-Tried os (a ∷ rest) fd error t t0 h e =
    let fd' : ℤ = os.result t (Call.socket a) in
    let opened : Trace = Call.socket a ∷ t in
    let status : ℤ = os.result opened (Call.connect fd' a) in
    elim (Bool-cases (is_neg fd')) [
      | inl n ↦
          ground (arith, connect_loop-Tried os rest fd' error opened t0 (inl n) (ground arith))
      | inr n ↦ elim (Bool-cases (is_zero status)) [
        | inl z ↦ ground arith
        | inr z ↦ ground (
          arith,
          connect_loop-Tried os rest fd' status (Call.close fd' ∷ Call.connect fd' a ∷ opened) t0
              (inr z) (ground (arith, same_refl fd')),
        )
      ]
    ]

connected-Opens :
    (os : Os) (t : Trace) (r : ℤ × ℤ × Trace) → Tried os t r → Opens os t (connected r)
unfolding connected
connected-Opens os t (fd, error, t') h = ground arith

tcp_connect-Opens :
    (os : Os) (addresses : Option (List ℕ)) (t : Trace) → Opens os t (tcp_connect os addresses t)
unfolding tcp_connect
tcp_connect-Opens os none t = inr (refl, refl)
tcp_connect-Opens os (some addresses) t =
    connected-Opens os t (connect_loop os addresses minus_one (pos 0) t)
      (connect_loop-Tried os addresses minus_one (pos 0) t t (inl refl) refl)

-- The last round of a listener.
abbrev Bound : Os → Trace → Option ℤ × Trace → Type 0
Bound os t (none, t') = open_sockets os t' ≡ open_sockets os t
Bound os t (some fd, t') = (is_neg fd ≡ false) × (open_sockets os t' ≡ fd ∷ open_sockets os t)

bind_loop-Bound :
    (os : Os) (first second : SocketOption) (rest : List ℕ) (t t0 : Trace)
    → open_sockets os t ≡ open_sockets os t0
    → Bound os t0 (bind_loop os first second rest t)
unfolding bind_loop
bind_loop-Bound os first second [] t t0 e = e
bind_loop-Bound os first second (a ∷ rest) t t0 e =
    let fd : ℤ = os.result t (Call.socket a) in
    let opened : Trace = Call.socket a ∷ t in
    let ready : Trace = Call.set_option fd second ∷ Call.set_option fd first ∷ opened in
    elim (Bool-cases (is_neg fd)) [
      | inl n ↦ ground (arith, bind_loop-Bound os first second rest opened t0 (ground arith))
      | inr n ↦ elim (Bool-cases (is_neg (os.result ready (Call.bind fd a)))) [
        | inl z ↦ ground (
          arith,
          bind_loop-Bound os first second rest (Call.close fd ∷ Call.bind fd a ∷ ready) t0
              (ground (arith, same_refl fd)),
        )
        | inr z ↦ ground arith
      ]
    ]

listening-Opens :
    (os : Os) (t : Trace) (r : Option ℤ × Trace) → Bound os t r → Opens os t (listening os r)
unfolding listening
listening-Opens os t (none, t') h = inr (refl, h)
listening-Opens os t (some fd, t') h = ground (arith, same_refl fd)

bound-Opens : (os : Os) (t : Trace) (r : Option ℤ × Trace) → Bound os t r → Opens os t (bound r)
unfolding bound
bound-Opens os t (none, t') h = inr (refl, h)
bound-Opens os t (some fd, t') h = inl h

listeners-Opens :
    (os : Os) (addresses : Option (List ℕ)) (t : Trace)
    → Opens os t (tcp_listener os addresses t) × Opens os t (udp_listener os addresses t)
unfolding tcp_listener udp_listener
listeners-Opens os none t = (inr (refl, refl), inr (refl, refl))
listeners-Opens os (some addresses) t = (
  listening-Opens os t (bind_loop os SocketOption.v6_only SocketOption.reuse_address addresses t)
      (bind_loop-Bound os SocketOption.v6_only SocketOption.reuse_address addresses t t refl),
  bound-Opens os t (bind_loop os SocketOption.reuse_address SocketOption.broadcast addresses t)
      (bind_loop-Bound os SocketOption.reuse_address SocketOption.broadcast addresses t t refl),
)

-- Each of tcp_connect, tcp_listener and udp_listener returns a socket that is open, and has closed
-- every other that it opened; or it returns a negative number and has closed all.
pub sockets-Opens :
    (os : Os) (addresses : Option (List ℕ)) (t : Trace)
    → Opens os t (tcp_connect os addresses t)
      × Opens os t (tcp_listener os addresses t)
      × Opens os t (udp_listener os addresses t)
sockets-Opens os addresses t =
    let (tcp, udp) = listeners-Opens os addresses t in (tcp_connect-Opens os addresses t, tcp, udp)
