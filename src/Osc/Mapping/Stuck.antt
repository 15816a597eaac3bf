-- ===== src/Osc/Mapping/Stuck.antt =====
-- How configure_mappings of osc/osc-xlater.c ends, and how it does not.
use network_gamepads.Base.{ℕ, zero, suc, ◌≡◌, refl, Bool, List, [], ◌∷◌, none, some}
use network_gamepads.Osc.{Floats, OscControl, GpControl}
use network_gamepads.Osc.Mapping.{line_feed, configure}

module _ {F : Type 0} (fl : Floats F) (realloc : ℕ → Bool) where
  -- If a signal requests the shutdown and the last key was Enter, the loop over the controls makes no
  -- progress: no number of rounds ends it.
  pub configure-stuck :
      (fuel : ℕ) (c : GpControl) (cs : List GpControl) (rest : List ℕ) (done : List (OscControl F))
      → configure fl realloc fuel (c ∷ cs) [] (line_feed ∷ rest) done ≡ some none
  unfolding configure
  configure-stuck zero c cs rest done = refl
  configure-stuck (suc fuel) c cs rest done = configure-stuck fuel c cs rest done
