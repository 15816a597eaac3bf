-- ===== src/Base/Text.antt =====
-- Characters and strings of C; a string is the list of its characters, before the terminator.
use Prim.Native.Nat.{ℕ}
use Prim.Native.Char.{code}
use Prim.Native.String.{String, [] as []ˢ, ◌∷◌ as ◌∷ˢ◌}
use mathlib.Core.Bool.{Bool, ◌&&◌}
use network_gamepads.Base.Tests.{leb}
use mathlib.Core.List.{List, [], ◌∷◌}

unfoldable pub text : String → List ℕ
text []ˢ = []
text (c ∷ˢ s) = code c ∷ text s

-- isprint, in the C locale.
unfoldable pub isprint : ℕ → Bool
isprint c = leb 0x20 c && leb c 0x7E
