-- ===== src/Client/Main/Wrong.antt =====
-- main of client/input-client.c after arguments that it does not take.
use network_gamepads.Base.{
  ℕ, ◌≡◌, List, [], ◌∷◌, Option, none, text, arith, length-replicate, length,
}
use network_gamepads.Os.{Os}
use network_gamepads.Settings.{World, add_all}
use network_gamepads.Args.{
  Numerals, add_argument, add_argument_string, add_argument_int, add_argument_uint,
  add_argument_elem, parse_items, parse_item, action, checked, strcmp, is_named, is_match,
  append_item,
}
use network_gamepads.Args.Parse.{parse, parse_args, parse_loop, finish, reset}
use network_gamepads.Client.Connect.{Device}
use network_gamepads.Client.Run.{Signals, Reading}
use network_gamepads.Client.Scan.{Entry}
use network_gamepads.Client.Main.{main, add_arguments, parsed, choose, usage}

-- Behind --help, main asks for a device and goes on just as it does without any argument.
pub main-help :
    (os : Os) (signals : Signals) (device : Device) (world : World) (num : Numerals) (buf : List ℕ)
    → (fuel : ℕ) (readings : List Reading) (directory : Option (List Entry))
      (line : Option (List ℕ))
    → (name : List ℕ) (rest : List (List ℕ))
    → main os signals device world num buf fuel readings directory line
        (name ∷ text "--help" ∷ rest)
      ≡ main os signals device world num buf fuel readings directory line (name ∷ [])
unfolding main add_arguments parsed choose add_all add_argument add_argument_string add_argument_int
    add_argument_uint add_argument_elem append_item parse parse_args parse_loop finish reset
    parse_items parse_item action checked strcmp is_named is_match text usage
main-help os signals device world num buf fuel readings directory line name rest =
    ground (arith, length-replicate {A = Option (List ℕ)} (length rest) none)
