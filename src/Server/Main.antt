-- ===== src/Server/Main.antt =====
-- add_arguments and main of server/input-server.c.
pub mod Options
pub mod Guarded
use network_gamepads.Base.{
  ℕ, ℤ, pos, minus_one, is_neg, is_pos, Bool, true, false, List, [], ◌∷◌, Option, none, some, text,
  ◌==◌, get_elem?, if◌then◌else◌,
}
use network_gamepads.Os.{Os, Trace}
use network_gamepads.Settings.{
  World, getenv_or, default_host, default_port, default_password, host, port, password, add_all,
}
use network_gamepads.Args.{
  Numerals, Memory, Table, live, add_argument, add_argument_string, add_argument_uint,
}
use network_gamepads.Args.Parse.{Output, parse}
use network_gamepads.Acl.{Evdev, all_ones, set_whitelist, set_blacklist}
use network_gamepads.Network.Connecting.{tcp_listener}
use network_gamepads.Server.State.{Config}
use network_gamepads.Server.Rounds.{Server, start, run, shutdown}

-- A function of argv and config; the configuration is `none` after undefined behaviour.
abbrev Handler : Type 0
Handler = List (List ℕ) → Option Config → ℤ × Option Config

-- usage, but for what it prints.
unfoldable pub usage : Handler
usage argv config = (minus_one, config)

abbrev listed : Option (ℤ × Config) → ℤ × Option Config
listed none = (minus_one, none)
listed (some (status, config)) = (status, some config)

-- setWhitelist and setBlacklist as arguments: `files` is what fopen and getline give.
unfoldable pub handle_list :
    (Option (List (List ℕ)) → Config → Option (ℤ × Config))
    → (List ℕ → Option (List (List ℕ)))
    → Handler
handle_list set_list files argv none = (minus_one, none)
handle_list set_list files argv (some config) = elim (get_elem? argv 1) [
  | none ↦ (minus_one, none)
  | some name ↦ listed (set_list (files name) config)
]

-- The field log.verbosity.
abbrev verbosity : ℕ
verbosity = 0

unfoldable pub add_arguments :
    Evdev
    → (List ℕ → Option (List (List ℕ)))
    → Table (Option Config)
    → Option (Table (Option Config))
unfolding usage handle_list
add_arguments ev files = add_all (
    add_argument (some (text "-h")) (some (text "--help")) usage 0
    ∷ add_argument_string (some (text "-p")) (some (text "--port")) port
    ∷ add_argument_string (some (text "-b")) (some (text "--bind")) host
    ∷ add_argument_string (some (text "-pw")) (some (text "--password")) password
    ∷ add_argument_uint (some (text "-v")) (some (text "--verbosity")) verbosity
    ∷ add_argument (some (text "-W")) (some (text "--whitelist"))
        (handle_list (set_whitelist ev) files) 1
    ∷ add_argument (some (text "-B")) (some (text "--blacklist"))
        (handle_list (set_blacklist ev) files) 1
    ∷ [])

-- The configuration at the start: memset fills every byte of the table with 1.
unfoldable pub defaults : World → Memory (Option Config)
defaults world = record {
  strings = λ container.
      if container == host
      then some (getenv_or world (text "SERVER_HOST") default_host)
      else if container == port
      then some (getenv_or world (text "SERVER_PORT") default_port)
      else if container == password
      then some (getenv_or world (text "SERVER_PW") default_password)
      else none;
  flags = λ container. false;
  ints = λ container. pos 0;
  uints = λ container. 0;
  config = some (record { password = []; whitelist = λ type code. all_ones });
}

-- The configuration after the arguments; `none` is a string that is NULL.
unfoldable pub configured : Memory (Option Config) → Option (List ℕ × List ℕ × Config)
configured m = elim (m.strings host) [
  | none ↦ none
  | some h ↦ elim (m.strings port) [
    | none ↦ none
    | some p ↦ elim (m.strings password) [
      | none ↦ none
      | some pw ↦ elim m.config [
        | none ↦ none
        | some config ↦ some (h, p, record config { password = pw })
      ]
    ]
  ]
]

module _ (os : Os) (world : World) where
  ended : ℤ → Option Server → Option (ℤ × Trace)
  ended listener none = none
  ended listener (some sv) = elim (shutdown os listener sv) [
    | none ↦ none
    | some last ↦ some (pos 0, last.trace)
  ]

  -- main from tcp_listener on; `ready` holds the results of select.
  unfoldable pub serve : List (ℤ → Bool) → List ℕ × List ℕ × Config → Option (ℤ × Trace)
  unfolding ended
  serve ready (h, p, config) =
      let (listener, t) = tcp_listener os (world.resolve h p) [] in
      if is_neg listener
      then some (pos 1, t)
      else ended listener (run os config listener ready (record start { trace = t }))

  -- main after eargs_parse.
  unfoldable pub parsed :
      List (ℤ → Bool)
      → ℤ × Output × Table (Option Config) × Memory (Option Config)
      → Option (ℤ × Trace)
  parsed ready (status, output, table, m) = elim (configured m) [
    | none ↦ none
    | some c ↦
        if is_neg status
        then some (pos 1, [])
        else if is_pos status
        then some (minus_one, [])
        else serve ready c
  ]

  unfoldable pub main :
      Numerals
      → Evdev
      → (List ℕ → Option (List (List ℕ)))
      → List (ℤ → Bool)
      → List (List ℕ)
      → Option (ℤ × Trace)
  unfolding add_arguments parsed
  main num ev files ready argv = elim (add_arguments ev files (live [])) [
    | none ↦ none
    | some table ↦ elim (parse num argv none table (defaults world)) [
      | none ↦ none
      | some r ↦ parsed ready r
    ]
  ]
