-- ===== src/Acl/Malformed.antt =====
-- Lines of an access list that are not well formed (server/input-server.c).
use network_gamepads.Base.{ℕ, ◌≡◌, pos, List, [], ◌∷◌, ◌++◌, some, arith, Option-cases, inl, inr}
use network_gamepads.Acl.{
  Evdev, malformed, go_on, stop, read_line, set_line, set_codes_round, set_codes,
}

set_codes_round-malformed :
    (ev : Evdev) (value : ℕ) (line : List ℕ) (table : ℕ → ℕ → ℕ)
    → read_line line ≡ some malformed
    → set_codes_round ev value line table ≡ some (stop (pos 1) table)
unfolding set_codes_round set_line
set_codes_round-malformed ev value line table h = ground arith

-- The lines after one that has no type or no code, a blank line for example, are not read: the list
-- has the effect and the status of the lines before it.
pub set_codes-malformed :
    (ev : Evdev) (value : ℕ) (before : List (List ℕ)) (line : List ℕ) (after : List (List ℕ))
    → (table : ℕ → ℕ → ℕ) → read_line line ≡ some malformed
    → set_codes ev value (before ++ line ∷ after) table ≡ set_codes ev value before table
unfolding set_codes
set_codes-malformed ev value [] line after table h =
    ground (arith, set_codes_round-malformed ev value line table h)
set_codes-malformed ev value (x ∷ xs) line after table h =
    elim (Option-cases (set_codes_round ev value x table)) [
      | inl e ↦ ground arith
      | inr (go_on table', e) ↦ ground (arith, set_codes-malformed ev value xs line after table' h)
      | inr (stop status table', e) ↦ ground arith
    ]
