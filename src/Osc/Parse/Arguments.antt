-- ===== src/Osc/Parse/Arguments.antt =====
-- The arguments of a message, and osc_param_float of osc/osc-xlater.c.
use network_gamepads.Base.{ℕ, ◌+◌, ◌*◌, ◌≡◌, List, [], ◌∷◌, ◌++◌, some, arith, drop, get_elem?-drop}
use network_gamepads.Osc.{Floats}
use network_gamepads.Osc.Parse.{osc_param_float}

-- An argument: four bytes.
abbrev pub Word : Type 0
Word = ℕ × ℕ × ℕ × ℕ

abbrev pub bytes_of : List Word → List ℕ
bytes_of [] = []
bytes_of ((a, b, c, d) ∷ ws) = a ∷ b ∷ c ∷ d ∷ bytes_of ws

module _ {F : Type 0} (fl : Floats F) where
  -- The value of an argument whose first byte is the highest.
  abbrev pub value_of : Word → F
  value_of (a, b, c, d) = fl.of_bytes (d ∷ c ∷ b ∷ a ∷ [])

  pub osc_param_float-value_of :
      (args rest : List ℕ) (c : ℕ) (w : Word) (ws : List Word)
      → drop (c * 4) args ≡ bytes_of (w ∷ ws) ++ rest
      → osc_param_float fl args c ≡ some (value_of w)
  unfolding osc_param_float
  osc_param_float-value_of args rest c (x, y, z, v) ws e = ground (
    arith,
    get_elem?-drop (c * 4) 0 (c * 4) args (omega arith),
    get_elem?-drop (c * 4) 1 (c * 4 + 1) args (omega arith),
    get_elem?-drop (c * 4) 2 (c * 4 + 2) args (omega arith),
    get_elem?-drop (c * 4) 3 (c * 4 + 3) args (omega arith),
  )
