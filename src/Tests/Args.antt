-- ===== src/Tests/Args.antt =====
-- The theorems about the argument parser at concrete inputs.
use network_gamepads.Base.{
  ℕ, pos, true, false, List, [], ◌∷◌, none, some, ◌≡◌, refl, ◌||◌, length, arith,
}
use network_gamepads.Args.{
  Numerals, Memory, ArgumentItem, type_flag, type_int, live, strcmp, is_named, is_match,
  add_argument_string,
}
use network_gamepads.Args.Adding.{IsUnknown, Takes, add_argument_string-Takes}
use network_gamepads.Args.Results.{Concludes, parse-Concludes}
use network_gamepads.Args.Parse.{parse}
use network_gamepads.Args.Positional.{LeftOver, parse-LeftOver}

abbrev pub lengths : Numerals
lengths = record { strtol = λ text. pos (length text); strtoul = λ text. length text }

abbrev empty : Memory ℕ
empty = record {
  strings = λ c. none;
  flags = λ c. false;
  ints = λ c. pos 0;
  uints = λ c. 0;
  config = 0;
}

-- `-c`, `-n` and two other strings.
abbrev dash_c : List ℕ
dash_c = 0x2D ∷ 0x63 ∷ []

abbrev dash_n : List ℕ
dash_n = 0x2D ∷ 0x6E ∷ []

abbrev client : List ℕ
client = 0x63 ∷ []

abbrev event : List ℕ
event = 0x2F ∷ 0x64 ∷ []

abbrev continue : ArgumentItem ℕ
continue = record { arg_short = some dash_c; arg_long = none; type = type_flag 0; arguments = 0 }

abbrev slot : ArgumentItem ℕ
slot = record { arg_short = none; arg_long = some client; type = type_int 0; arguments = 1 }

dash_n-IsUnknown : IsUnknown (continue ∷ []) dash_n
unfolding is_match strcmp is_named
dash_n-IsUnknown = (refl, tt)

event-IsUnknown : IsUnknown (continue ∷ []) event
unfolding is_match strcmp is_named
event-IsUnknown = (refl, tt)

dash_n-is_named : (is_named dash_n (some dash_n) || is_named dash_n none) ≡ true
unfolding is_named strcmp
dash_n-is_named = refl

parse-Concludes_example : Concludes 2 (continue ∷ slot ∷ []) (
    parse lengths
      (event ∷ client ∷ dash_n ∷ [])
      (some (none ∷ none ∷ none ∷ []))
      (live (continue ∷ slot ∷ []))
      empty)
parse-Concludes_example =
    parse-Concludes lengths (continue ∷ slot ∷ []) event (client ∷ dash_n ∷ [])
      (some (none ∷ none ∷ none ∷ [])) empty (tt, (omega arith, tt)) (omega arith)

parse-LeftOver_example : LeftOver (event ∷ dash_n ∷ []) (continue ∷ []) empty (
    parse lengths
      (client ∷ event ∷ dash_n ∷ [])
      (some (none ∷ none ∷ none ∷ []))
      (live (continue ∷ []))
      empty)
parse-LeftOver_example =
    parse-LeftOver lengths (continue ∷ []) client (event ∷ dash_n ∷ []) (none ∷ none ∷ none ∷ [])
      empty (event-IsUnknown, (dash_n-IsUnknown, tt)) (omega arith)

add_argument_string-Takes_example :
    Takes lengths 3 dash_n client
      (event ∷ [])
      0
      none
      empty
      (add_argument_string (some dash_n) none 3 (live (continue ∷ [])))
add_argument_string-Takes_example =
    add_argument_string-Takes lengths (continue ∷ []) (some dash_n) none 3 dash_n client
      (event ∷ []) 0 none empty dash_n-IsUnknown dash_n-is_named
