-- ===== src/Server/Handlers/Prefix.antt =====
-- The length that the client states in handle_password of server/input-server.c.
use network_gamepads.Base.{
  ℕ, ◌≡◌, refl, ℤ, List, [], ◌∷◌, ◌++◌, some, arith, length, length-append, take-append_length,
  All-append_left, ◌≢◌, subst,
}
use network_gamepads.Os.{Os}
use network_gamepads.Protocol.{message_password, message_password_required}
use network_gamepads.Server.State.{Config, Session}
use network_gamepads.Server.Handlers.{handle_password}
use network_gamepads.Server.Handlers.Password.{
  text, NoNul, IsAdmitted, Agrees, handle_password-admits,
}

text-append : (q m : List ℕ) → NoNul q → text (q ++ m) ≡ q ++ text m
text-append [] m h = refl
text-append (x ∷ q) m h = ground (arith, text-append q m h.1)

-- A PASSWORD message that carries no more than a beginning of the configured password lets the
-- client in; the empty beginning does, so that no password is needed at all.
pub prefix-IsAdmitted :
    (os : Os) (config : Config) (q rest tail : List ℕ) (s : Session)
    → NoNul config.password
    → config.password ≡ q ++ rest
    → s.client.status ≡ message_password_required
    → (r : ℤ) × (s' : Session) × (handle_password os config
          (message_password ∷ length q ∷ q ++ tail)
          s
        ≡ some (r, s'))
      × IsAdmitted s'
prefix-IsAdmitted os config q rest tail s nonul e h =
    let nq : NoNul q = All-append_left (λ x. x ≢ 0) q rest (subst NoNul e nonul) in
    let same : Agrees config (message_password ∷ length q ∷ q ++ tail) (length q) =
      rw (e, take-append_length q rest, text-append q tail nq, take-append_length q (text tail)) in
    let (r, s', run, iff, _, _) =
      handle_password-admits os config (message_password ∷ length q ∷ q ++ tail) (length q) s nonul
        h refl (omega (arith, length-append q tail)) in
    (r, s', run, iff.1 same)
