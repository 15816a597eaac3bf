-- ===== src/Osc/Negotiate/Steps.antt =====
-- The PASSWORD message of osc/osc-xlater.c and that of the client.
use network_gamepads.Base.{
  ℕ, zero, suc, ◌+◌, ◌%◌, ◌<◌, ◌≡◌, refl, ap, List, [], ◌∷◌, ◌++◌, some, length, take, arith,
  length-append,
}
use network_gamepads.Client.{password_message}
use network_gamepads.Osc.Negotiate.{pw_msg}

pub take-length : (xs : List ℕ) (n : ℕ) → length xs ≡ n → take n xs ≡ xs
take-length [] zero e = refl
take-length [] (suc n) e = refl
take-length (x ∷ xs) zero e = absurd (omega arith)
take-length (x ∷ xs) (suc n) e = ap (◌∷◌ x) (take-length xs n (omega arith))

-- The translator sends the same PASSWORD message as the client, for each password that the client
-- does not refuse as too long.
pub password_message-pw_msg :
    (password : List ℕ) → length password < 254 → password_message password ≡ some (pw_msg password)
unfolding password_message pw_msg
password_message-pw_msg password h =
    let n : ℕ = (length password + 1) % 256 in
    let small : n ≡ suc (length password) = omega arith in
    let whole : take n (password ++ 0 ∷ []) ≡ password ++ 0 ∷ [] =
      take-length (password ++ 0 ∷ []) n (omega (arith, length-append password (0 ∷ []))) in
    ground arith
