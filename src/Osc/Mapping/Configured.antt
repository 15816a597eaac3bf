-- ===== src/Osc/Mapping/Configured.antt =====
-- The path and the bounds that configure_mappings of osc/osc-xlater.c finds for a control.
use network_gamepads.Base.{◌≡◌, List, [], ◌∷◌, some, All}
use network_gamepads.Osc.{Floats, OscChannel, OscControl, GpChannel, GpControl}
use network_gamepads.Osc.Mapping.Bounds.{WithinAll}
use network_gamepads.Osc.Mapping.Fetching.{Msg}

module _ {F : Type 0} (fl : Floats F) where
  -- The codes of the channels are those of the gamepad's control.
  abbrev pub Codes : List GpChannel → List (OscChannel F) → Type 0
  Codes [] [] = Unit
  Codes (g ∷ gs) (c ∷ cs) = (c.code ≡ g.code) × Codes gs cs
  Codes _ _ = ⊥

  -- The control that is kept: its path is that of the first message, its type and its codes those of
  -- the gamepad's control, and its bounds hold the value of every argument that came.
  abbrev pub Learnt : GpControl → Msg → List Msg → OscControl F → Type 0
  Learnt c m ms control =
      (control.path ≡ some m.path)
      × (control.type ≡ c.type)
      × (control.num_channels ≡ c.num_channels)
      × Codes c.channels control.channels
      × All (λ m'. WithinAll fl control.channels m'.words) (m ∷ ms)
