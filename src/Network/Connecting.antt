-- ===== src/Network/Connecting.antt =====
-- The sockets of common/network.h: tcp_connect, tcp_listener and udp_listener. `addresses` is what
-- getaddrinfo finds, or none after its error.
pub mod Sockets
use network_gamepads.Base.{
  ℕ, ℤ, pos, minus_one, is_neg, Bool, true, false, not, List, [], ◌∷◌, Option, none, some, ◌==◌,
  if◌then◌else◌,
}
use network_gamepads.Os.{Os, Trace, Call, SocketOption}

-- Whether a status is 0.
abbrev pub is_zero : ℤ → Bool
is_zero (pos n) = n == 0
is_zero (ℤ.negsuc n) = false

-- The loop of tcp_connect; `sockfd` and `error` are those of the last round.
connect_loop : Os → List ℕ → ℤ → ℤ → Trace → ℤ × ℤ × Trace
connect_loop os [] sockfd error t = (sockfd, error, t)
connect_loop os (a ∷ rest) sockfd error t =
    let fd = os.result t (Call.socket a) in
    let opened = Call.socket a ∷ t in
    let status = os.result opened (Call.connect fd a) in
    elim (is_neg fd) [
      | true ↦ connect_loop os rest fd error opened
      | false ↦ elim (is_zero status) [
        | true ↦ (fd, status, Call.connect fd a ∷ opened)
        | false ↦ connect_loop os rest fd status (Call.close fd ∷ Call.connect fd a ∷ opened)
      ]
    ]

connected : ℤ × ℤ × Trace → ℤ × Trace
connected (sockfd, error, t) =
    if is_neg sockfd
    then (minus_one, t)
    else if not (is_zero error)
    then (minus_one, t)
    else (sockfd, t)

unfoldable pub tcp_connect : Os → Option (List ℕ) → Trace → ℤ × Trace
unfolding connect_loop connected
tcp_connect os none t = (minus_one, t)
tcp_connect os (some addresses) t = connected (connect_loop os addresses minus_one (pos 0) t)

-- The loop of the listeners, with the two options that they set; failures to set one are ignored.
-- `none` is the end of the addresses.
bind_loop : Os → SocketOption → SocketOption → List ℕ → Trace → Option ℤ × Trace
bind_loop os first second [] t = (none, t)
bind_loop os first second (a ∷ rest) t =
    let fd = os.result t (Call.socket a) in
    let opened = Call.socket a ∷ t in
    let ready = Call.set_option fd second ∷ Call.set_option fd first ∷ opened in
    elim (is_neg fd) [
      | true ↦ bind_loop os first second rest opened
      | false ↦ elim (is_neg (os.result ready (Call.bind fd a))) [
        | true ↦ bind_loop os first second rest (Call.close fd ∷ Call.bind fd a ∷ ready)
        | false ↦ (some fd, Call.bind fd a ∷ ready)
      ]
    ]

listening : Os → Option ℤ × Trace → ℤ × Trace
listening os (none, t) = (minus_one, t)
listening os (some fd, t) =
    if is_neg (os.result t (Call.listen fd))
    then (minus_one, Call.close fd ∷ Call.listen fd ∷ t)
    else (fd, Call.listen fd ∷ t)

unfoldable pub tcp_listener : Os → Option (List ℕ) → Trace → ℤ × Trace
unfolding bind_loop listening
tcp_listener os none t = (minus_one, t)
tcp_listener os (some addresses) t =
    listening os (bind_loop os SocketOption.v6_only SocketOption.reuse_address addresses t)

bound : Option ℤ × Trace → ℤ × Trace
bound (none, t) = (minus_one, t)
bound (some fd, t) = (fd, t)

unfoldable pub udp_listener : Os → Option (List ℕ) → Trace → ℤ × Trace
unfolding bind_loop bound
udp_listener os none t = (minus_one, t)
udp_listener os (some addresses) t =
    bound (bind_loop os SocketOption.reuse_address SocketOption.broadcast addresses t)
