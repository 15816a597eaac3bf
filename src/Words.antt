-- ===== src/Words.antt =====
-- Words as bytes: htobe16 and htobe32, and the words of the host, which is little-endian.
use network_gamepads.Base.{ℕ, ◌/◌, ◌%◌, List, [], ◌∷◌, ◌++◌}

unfoldable pub htobe16 : ℕ → List ℕ
htobe16 n = (n / 256) % 256 ∷ n % 256 ∷ []

unfoldable pub htobe32 : ℕ → List ℕ
unfolding htobe16
htobe32 n = htobe16 (n / 65536) ++ htobe16 n

unfoldable pub htole16 : ℕ → List ℕ
htole16 n = n % 256 ∷ (n / 256) % 256 ∷ []

unfoldable pub htole32 : ℕ → List ℕ
unfolding htole16
htole32 n = htole16 n ++ htole16 (n / 65536)
