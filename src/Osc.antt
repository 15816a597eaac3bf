-- ===== src/Osc.antt =====
-- The OSC translator, osc/osc-xlater.c: its types, and the table of the gamepad's controls. Floating
-- point numbers are a parameter.
pub mod Parse
pub mod Translate
pub mod Negotiate
pub mod Mapping
pub mod Main
use network_gamepads.Base.{ℕ, zero, suc, ◌+◌, ℤ, Bool, List, [], ◌∷◌, Option}

-- A float from its four bytes in memory, and what the program does with it: (int) roundf, and the
-- order of doubles.
pub record Floats (F : Type 0) : Type 0 where
  pub of_bytes : List ℕ → F
  pub of_zero : F
  pub lt : F → F → Bool
  pub rounded : F → ℕ

pub record OscChannel (F : Type 0) : Type 0 where
  pub code : ℕ
  pub min : F
  pub max : F

-- The channels are the array of which num_channels is the length in use.
pub record OscControl (F : Type 0) : Type 0 where
  pub path : Option (List ℕ)
  pub type : ℕ
  pub num_channels : ℕ
  pub channels : List (OscChannel F)

-- The bounds in the table are whole numbers.
pub record GpChannel : Type 0 where
  pub code : ℕ
  pub min : ℕ
  pub max : ℕ

pub record GpControl : Type 0 where
  pub type : ℕ
  pub num_channels : ℕ
  pub channels : List GpChannel

abbrev pub ev_key : ℕ
ev_key = 1

abbrev pub ev_abs : ℕ
ev_abs = 3

abbrev button : ℕ → GpControl
button code = record {
  type = ev_key;
  num_channels = 1;
  channels = record { code = code; min = 0; max = 1 } ∷ [];
}

abbrev stick : ℕ → ℕ → GpControl
stick x y = record {
  type = ev_abs;
  num_channels = 2;
  channels = record { code = x; min = 0; max = 255 } ∷ record { code = y; min = 0; max = 255 } ∷ [];
}

-- The controls in their order, with the numbers of linux/input-event-codes.h; their names are only
-- printed.
unfoldable pub gamepad_controls : List GpControl
gamepad_controls =
    button 0x130
    ∷ button 0x131
    ∷ button 0x133
    ∷ button 0x134
    ∷ button 0x13B
    ∷ button 0x13A
    ∷ button 0x136
    ∷ button 0x137
    ∷ button 0x13D
    ∷ button 0x13E
    ∷ stick 0 1
    ∷ stick 3 4
    ∷ stick 0x10 0x11
    ∷ []
