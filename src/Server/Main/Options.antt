-- ===== src/Server/Main/Options.antt =====
-- main of server/input-server.c with a list of allowed events on the command line: its outcome.
use network_gamepads.Base.{
  ℕ, ◌≡◌, refl, subst, ◌⊎◌, inl, inr, ℤ, pos, minus_one, is_neg, Bool, List, [], ◌∷◌, Option, none,
  some, text, arith, if◌then◌else◌, Option-cases,
}
use network_gamepads.Os.{Os}
use network_gamepads.Settings.{
  World, add_all, getenv_or, default_host, default_port, default_password,
}
use network_gamepads.Args.{
  Numerals, add_argument, add_argument_string, add_argument_uint, add_argument_elem, parse_items,
  parse_item, action, checked, strcmp, is_named, is_match, append_item,
}
use network_gamepads.Args.Parse.{parse, parse_args, parse_loop, finish, reset}
use network_gamepads.Acl.{
  Evdev, Next, go_on, stop, set_codes, set_codes_round, set_line, set_type, set_code, set_code_list,
  set_whitelist, Line, comment, malformed, entry, read_line,
}
use network_gamepads.Server.Main.{
  main, add_arguments, parsed, usage, handle_list, defaults, configured, serve,
}

abbrev Is : ℤ → Type 0
Is status = (status ≡ pos 1) ⊎ (status ≡ minus_one)

abbrev Stops : Option Next → Type 0
Stops none = Unit
Stops (some (go_on table)) = Unit
Stops (some (stop status table)) = Is status

set_line-Stops :
    (ev : Evdev) (value : ℕ) (line : Line) (table : ℕ → ℕ → ℕ)
    → Stops (set_line ev value line table)
unfolding set_line set_type set_code
set_line-Stops ev value comment table = tt
set_line-Stops ev value malformed table = inl refl
set_line-Stops ev value (entry type code) table = ground arith

set_codes_round-Stops :
    (ev : Evdev) (value : ℕ) (line : List ℕ) (table : ℕ → ℕ → ℕ)
    → Stops (set_codes_round ev value line table)
unfolding set_codes_round
set_codes_round-Stops ev value line table = elim (Option-cases (read_line line)) [
  | inl n ↦ ground arith
  | inr (l, e) ↦ ground (arith, set_line-Stops ev value l table)
]

abbrev Ends : Option (ℤ × (ℕ → ℕ → ℕ)) → Type 0
Ends none = Unit
Ends (some (status, table)) = Is status

set_codes-Ends :
    (ev : Evdev) (value : ℕ) (lines : List (List ℕ)) (table : ℕ → ℕ → ℕ)
    → Ends (set_codes ev value lines table)
unfolding set_codes
set_codes-Ends ev value [] table = inl refl
set_codes-Ends ev value (line ∷ lines) table =
    elim (set_codes_round ev value line table)
        as (λ r.
          Stops r
          → Ends (elim r [
            | none ↦ none
            | some (go_on table') ↦ set_codes ev value lines table'
            | some (stop status table') ↦ some (status, table')
          ])) [
            | none ↦ λ h. tt
            | some (go_on table') ↦ λ h. set_codes-Ends ev value lines table'
            | some (stop status table') ↦ λ h. h
          ]
      (set_codes_round-Stops ev value line table)

module _ (os : Os) (world : World) (num : Numerals) (ev : Evdev)
    (files : List ℕ → Option (List (List ℕ))) (ready : List (ℤ → Bool)) where
  -- With a list of allowed events on the command line, main serves with the table that the list gives,
  -- all events being forbidden before, or returns 1 and opens nothing where the list has an unknown name.
  pub main-whitelist :
      (name file : List ℕ) (lines : List (List ℕ)) (status : ℤ) (table : ℕ → ℕ → ℕ)
      → files file ≡ some lines
      → set_codes ev 1 lines (λ type code. 0) ≡ some (status, table)
      → main os world num ev files ready (name ∷ text "--whitelist" ∷ file ∷ []) ≡ (
          if is_neg status
          then some (pos 1, [])
          else serve os world ready (
            getenv_or world (text "SERVER_HOST") default_host,
            getenv_or world (text "SERVER_PORT") default_port,
            record {
              password = getenv_or world (text "SERVER_PW") default_password;
              whitelist = table;
            },
          ))
  unfolding main add_arguments parsed add_all add_argument add_argument_string add_argument_uint
      add_argument_elem append_item parse parse_args parse_loop finish reset parse_items parse_item
      action checked strcmp is_named is_match text usage handle_list set_whitelist set_code_list
      defaults configured
  main-whitelist name file lines status table found listed =
      elim (subst Ends listed (set_codes-Ends ev 1 lines (λ type code. 0))) [
        | inl e ↦ ground arith
        | inr e ↦ ground arith
      ]
