-- ===== src/Osc/Mapping.antt =====
-- configure_mappings of osc/osc-xlater.c: the bounds of each control, from the messages that come
-- while the user moves it. What select and the calls behind it give is a list of happenings, at whose
-- end a signal requests the shutdown.
pub mod Stuck
pub mod Bounds
pub mod Fetching
pub mod Configured
use network_gamepads.Base.{
  ℕ, zero, suc, ◌+◌, ℤ, pos, minus_one, Bool, true, false, not, List, [], ◌∷◌, ◌++◌, Option, none,
  some, length, take, drop, replicate, map, ◌==◌, if◌then◌else◌,
}
use network_gamepads.Network.{stored}
use network_gamepads.Osc.{Floats, OscChannel, OscControl, GpChannel, GpControl}
use network_gamepads.Osc.Parse.{strlen, OscMessage, osc_parse, osc_param_float}

-- One turn of select: its failure, bytes from the keyboard, which are looked at first, or a message,
-- which is `none` or empty where recv fails.
pub data Happening : Type 0 where
  select_failed : Happening
  keyboard : List ℕ → Happening
  message : Option (List ℕ) → Happening

abbrev key_q : ℕ
key_q = 0x71

abbrev key_s : ℕ
key_s = 0x73

abbrev pub line_feed : ℕ
line_feed = 10

module _ {F : Type 0} (fl : Floats F) where
  -- The channels of a control before any message: the template's bounds are 0.
  blank_channels : ℕ → List GpChannel → List (OscChannel F)
  blank_channels zero channels = []
  blank_channels (suc n) [] = []
  blank_channels (suc n) (channel ∷ channels) =
      record { code = channel.code; min = fl.of_zero; max = fl.of_zero } ∷ blank_channels n channels

  unfoldable pub blank : GpControl → OscControl F
  unfolding blank_channels
  blank control = record {
    path = none;
    type = control.type;
    num_channels = control.num_channels;
    channels = blank_channels control.num_channels control.channels;
  }

  -- The bounds of a channel with one more value.
  unfoldable pub widen : F → OscChannel F → OscChannel F
  widen value channel = record channel {
    min = if fl.lt value channel.min then value else channel.min;
    max = if fl.lt channel.max value then value else channel.max;
  }

  -- The channels from number `u` on; `none` is a read outside of the arguments.
  unfoldable pub widen_channels : List ℕ → ℕ → List (OscChannel F) → Option (List (OscChannel F))
  unfolding widen
  widen_channels args u [] = some []
  widen_channels args u (channel ∷ channels) = elim (osc_param_float fl args u) [
    | none ↦ none
    | some value ↦ elim (widen_channels args (suc u) channels) [
      | none ↦ none
      | some rest ↦ some (widen value channel ∷ rest)
    ]
  ]

  -- The first path that comes is kept.
  keep_path : List ℕ → Option (List ℕ) → Option (Option (List ℕ))
  keep_path mem (some path) = some (some path)
  keep_path mem none = elim (strlen mem) [ none ↦ none | some n ↦ some (some (take n mem)) ]

  -- What a turn leaves: the buffer and the control, an error, or the end of the inner loop.
  pub data Turn : Type 0 where
    again : List ℕ → OscControl F → Turn
    failed : Turn
    pressed : List ℕ → Turn

  fit : List ℕ → OscControl F → OscMessage → Option Turn
  unfolding keep_path widen_channels
  fit mem control m =
      if not (m.num_args == control.num_channels)
      then some (again mem control)
      else elim (keep_path mem control.path) [
        | none ↦ none
        | some path ↦ elim (widen_channels (drop m.args mem) 0 control.channels) [
          | none ↦ none
          | some channels ↦ some (again mem (record control { path = path; channels = channels }))
        ]
      ]

  -- One turn of the inner loop.
  unfoldable pub turn : Happening → List ℕ → OscControl F → Option Turn
  unfolding fit
  turn select_failed buffer control = some failed
  turn (keyboard bytes) buffer control = some (pressed (stored buffer 0 bytes))
  turn (message none) buffer control = some failed
  turn (message (some [])) buffer control = some failed
  turn (message (some (b ∷ bs))) buffer control =
      let mem = stored buffer 0 (b ∷ bs) in
      elim (osc_parse mem (length (b ∷ bs))) [
        | none ↦ none
        | some none ↦ some failed
        | some (some m) ↦ fit mem control m
      ]

  -- What the inner loop leaves: an error, or the buffer, the control and what has not happened yet.
  pub data Fetched : Type 0 where
    aborted : Fetched
    fetched : List ℕ → OscControl F → List Happening → Fetched

  -- The loop over select, until a key is pressed or a shutdown requested.
  unfoldable pub fetch : List Happening → List ℕ → OscControl F → Option Fetched
  unfolding turn
  fetch [] buffer control = some (fetched buffer control [])
  fetch (h ∷ later) buffer control = elim (turn h buffer control) [
    | none ↦ none
    | some (again buffer' control') ↦ fetch later buffer' control'
    | some failed ↦ some aborted
    | some (pressed buffer') ↦ some (fetched buffer' control later)
  ]

  -- What becomes of the outer loop: it ends, goes on to the next control, or takes the same one again.
  pub data Decision : Type 0 where
    quit retry skip : Decision
    keep : OscControl F → Decision

  -- `realloc` is whether it gives so many elements.
  unfoldable pub decide : (ℕ → Bool) → ℕ → List ℕ → OscControl F → Decision
  decide realloc num_osc [] control = skip
  decide realloc num_osc (key ∷ rest) control =
      if key == key_q
      then quit
      else if key == key_s
      then skip
      else if key == line_feed
      then elim control.path [
        | none ↦ retry
        | some path ↦ if realloc (num_osc + 2) then keep control else quit
      ]
      else skip

  -- configure_mappings with the controls that are left and those that are configured, on fuel: one
  -- unit for each round of the outer loop. `none` is undefined behaviour, `some none` the end of fuel.
  unfoldable pub configure :
      (ℕ → Bool)
      → ℕ
      → List GpControl
      → List Happening
      → List ℕ
      → List (OscControl F)
      → Option (Option (ℤ × List (OscControl F)))
  unfolding fetch decide blank
  configure realloc fuel [] happenings buffer done = some (some (pos 0, done))
  configure realloc zero (c ∷ cs) happenings buffer done = some none
  configure realloc (suc fuel) (c ∷ cs) happenings buffer done =
      elim (fetch happenings buffer (blank c)) [
        | none ↦ none
        | some aborted ↦ some (some (minus_one, done))
        | some (fetched buffer' control later) ↦
            elim (decide realloc (length done) buffer' control) [
              | quit ↦ some (some (minus_one, done))
              | retry ↦ configure realloc fuel (c ∷ cs) later buffer' done
              | skip ↦ configure realloc fuel cs later buffer' done
              | keep control' ↦ configure realloc fuel cs later buffer' (done ++ control' ∷ [])
            ]
      ]
