-- ===== src/Client/Passwords.antt =====
-- The password of client/input-client.c as server/input-server.c checks it.
use network_gamepads.Base.{
  ℕ, suc, ◌≡◌, ◌↔◌, refl, sym, ap, subst, ◌∙◌, ◌⊎◌, ℤ, List, [], ◌∷◌, ◌++◌, some, arith, length,
  take, drop, length-append,
}
use network_gamepads.Os.{Os}
use network_gamepads.Protocol.{
  message_password_required, message_invalid_password, message_password,
}
use network_gamepads.Server.State.{Config, Session}
use network_gamepads.Server.Handlers.{handle_password}
use network_gamepads.Server.Handlers.Password.{text, NoNul, IsAdmitted, handle_password-admits}
use network_gamepads.Client.{password_message}

text-append : (p rest : List ℕ) → NoNul p → text ((p ++ 0 ∷ []) ++ rest) ≡ p
text-append [] rest h = refl
text-append (x ∷ p) rest h = ground (arith, text-append p rest h.1)

take_longer {ℓ} : {A : Type ℓ} (xs : List A) → take (suc (length xs)) xs ≡ xs
take_longer [] = refl
take_longer (x ∷ xs) = ap (◌∷◌ x) (take_longer xs)

take-eq {ℓ} : {A : Type ℓ} (xs ys : List A) → take (suc (length ys)) xs ≡ ys → xs ≡ ys
take-eq [] ys e = e
take-eq (x ∷ xs) [] e = cc
take-eq (x ∷ xs) (y ∷ ys) e = let same : xs ≡ ys = take-eq xs ys (ap (drop 1) e) in cc

-- handle_password has a result. The client is let in exactly when the password is the configured one,
-- and otherwise has the status INVALID_PASSWORD.
abbrev pub Checks : Os → Config → List ℕ → List ℕ → Session → Type 0
Checks os config password msg s =
    (r : ℤ) × (s' : Session) × (handle_password os config msg s ≡ some (r, s'))
    × (IsAdmitted s' ↔ (config.password ≡ password))
    × (IsAdmitted s' ⊎ (s'.client.status ≡ message_invalid_password))

take_password-eq :
    (p password rest : List ℕ)
    → NoNul password
    → (take (suc (length password)) p
        ≡ take (suc (length password)) (text ((password ++ 0 ∷ []) ++ rest)))
      ↔ (p ≡ password)
take_password-eq p password rest h =
    let same : take (suc (length password)) (text ((password ++ 0 ∷ []) ++ rest)) ≡ password =
      ap (take (suc (length password))) (text-append password rest h) ∙ take_longer password in
    (
      (λ e. take-eq p password (e ∙ same)),
      λ e. ap (take (suc (length password))) e ∙ take_longer password ∙ sym same,
    )

bytes-Checks :
    (os : Os) (config : Config) (password rest : List ℕ) (s : Session)
    → NoNul config.password
    → NoNul password
    → s.client.status ≡ message_password_required
    → Checks os config password
        (message_password ∷ suc (length password) ∷ ((password ++ 0 ∷ []) ++ rest))
        s
bytes-Checks os config password rest s nonul nonul' h =
    let (r, s', e, iff, either, replied) =
      handle_password-admits os config
        (message_password ∷ suc (length password) ∷ ((password ++ 0 ∷ []) ++ rest))
        (suc (length password)) s nonul h refl
        (omega (arith, length-append (password ++ 0 ∷ []) rest, length-append password (0 ∷ []))) in
    let (to, from) = take_password-eq config.password password rest nonul' in
    (r, s', e, ((λ a. to (iff.0 a)), λ a. iff.1 (from a)), either)

password_message-eq :
    (password msg : List ℕ)
    → password_message password ≡ some msg
    → msg ≡ message_password ∷ suc (length password) ∷ (password ++ 0 ∷ [])
unfolding password_message
password_message-eq password msg e = ground arith

-- When the client sends, as init_connect does, a password of no zero bytes that is not too long, and
-- was asked for it, handle_password lets it in exactly when the password is the configured one, and
-- otherwise gives it the status INVALID_PASSWORD.
pub password_message-Checks :
    (os : Os) (config : Config) (password msg rest : List ℕ) (s : Session)
    → NoNul config.password
    → NoNul password
    → password_message password ≡ some msg
    → s.client.status ≡ message_password_required
    → Checks os config password (msg ++ rest) s
password_message-Checks os config password msg rest s nonul nonul' e h =
    subst (λ m. Checks os config password (m ++ rest) s) (sym (password_message-eq password msg e))
      (bytes-Checks os config password rest s nonul nonul' h)
