-- ===== src/Client/Main.antt =====
-- add_arguments and main of client/input-client.c.
pub mod Wrong
use network_gamepads.Base.{
  ℕ, ℤ, pos, minus_one, is_neg, is_pos, Bool, true, false, List, [], ◌∷◌, Option, none, some, text,
  length, replicate, get_elem?, ◌==◌, if◌then◌else◌,
}
use network_gamepads.Os.{Os, Trace, Call}
use network_gamepads.Settings.{
  World, getenv_or, default_host, default_port, default_password, host, port, password, dev_name,
  add_all,
}
use network_gamepads.Args.{
  Numerals, Memory, Table, live, add_argument, add_argument_string, add_argument_int,
  add_argument_uint,
}
use network_gamepads.Args.Parse.{Output, parse}
use network_gamepads.Client.Connect.{Device, ClientConfig}
use network_gamepads.Client.Run.{Signals, Reading, set_slot, run}
use network_gamepads.Client.Scan.{Entry, scan_devices}

-- A function of argv and config; the configuration is `none` after undefined behaviour.
abbrev Handler : Type 0
Handler = List (List ℕ) → Option ClientConfig → ℤ × Option ClientConfig

-- usage, but for what it prints.
unfoldable pub usage : Handler
usage argv config = (minus_one, config)

abbrev chosen : ℤ × ClientConfig → ℤ × Option ClientConfig
chosen (status, config) = (status, some config)

-- set_slot as an argument.
unfoldable pub handle_slot : Numerals → Handler
unfolding set_slot
handle_slot num argv none = (minus_one, none)
handle_slot num argv (some config) = elim (get_elem? argv 1) [
  | none ↦ (minus_one, none)
  | some value ↦ chosen (set_slot (num.strtoul value) config)
]

-- The fields log.verbosity and reopen_attempts.
abbrev verbosity : ℕ
verbosity = 0

abbrev reopen_attempts : ℕ
reopen_attempts = 0

unfoldable pub add_arguments :
    Numerals → Table (Option ClientConfig) → Option (Table (Option ClientConfig))
unfolding usage handle_slot
add_arguments num = add_all (
    add_argument (some (text "-?")) (some (text "--help")) usage 0
    ∷ add_argument_string (some (text "-h")) (some (text "--host")) host
    ∷ add_argument_string (some (text "-n")) (some (text "--name")) dev_name
    ∷ add_argument_string (some (text "-p")) (some (text "--port")) port
    ∷ add_argument_string (some (text "-pw")) (some (text "--password")) password
    ∷ add_argument_uint (some (text "-v")) (some (text "--verbosity")) verbosity
    ∷ add_argument (some (text "-c")) (some (text "--continue")) (handle_slot num) 1
    ∷ add_argument_int (some (text "-r")) (some (text "--reopen")) reopen_attempts
    ∷ [])

-- The configuration at the start.
unfoldable pub defaults : World → Memory (Option ClientConfig)
defaults world = record {
  strings = λ container.
      if container == host
      then some (getenv_or world (text "SERVER_HOST") default_host)
      else if container == port
      then some (getenv_or world (text "SERVER_PORT") default_port)
      else if container == password
      then some (getenv_or world (text "SERVER_PW") default_password)
      else none;
  flags = λ container. false;
  ints = λ container. pos 0;
  uints = λ container. 0;
  config = some (record { dev_name = none; password = []; slot = 0 });
}

-- The configuration after the arguments; `none` is a string that is NULL.
unfoldable pub configured : Memory (Option ClientConfig) → Option (List ℕ × List ℕ × ClientConfig)
configured m = elim (m.strings host) [
  | none ↦ none
  | some h ↦ elim (m.strings port) [
    | none ↦ none
    | some p ↦ elim (m.strings password) [
      | none ↦ none
      | some pw ↦ elim m.config [
        | none ↦ none
        | some config ↦ some (h, p, record config { dev_name = m.strings dev_name; password = pw })
      ]
    ]
  ]
]

-- output[0]
abbrev first_output : Output → Option (List ℕ)
first_output none = none
first_output (some output) = elim (get_elem? output 0) [ none ↦ none | some p ↦ p ]

module _ (os : Os) (signals : Signals) (device : Device) (world : World) where
  ended : ℤ → Option (ℤ × Trace) → Option (ℤ × Trace)
  ended event_fd none = none
  ended event_fd (some (status, t)) = some (status, Call.close event_fd ∷ t)

  -- main from the opening of the device on: `buf` is the memory of the buffer of init_connect.
  unfoldable pub stream :
      List ℕ → ℕ → List Reading → ℤ → List ℕ × List ℕ × ClientConfig → Trace → Option (ℤ × Trace)
  unfolding ended
  stream buf fuel readings attempts (h, p, config) t =
      let event_fd = os.result t Call.open_device in
      if is_neg event_fd
      then some (pos 1, Call.open_device ∷ t)
      else ended event_fd (
          run os signals device buf (world.resolve h p) fuel attempts readings event_fd config
            (Call.open_device ∷ t))

  -- The device is the first string left over; where there is none, or after an error in the
  -- arguments, scan_devices asks for it.
  unfoldable pub choose :
      Option (List Entry) → Option (List ℕ) → ℤ → Output → Option (Option (List ℕ) × Trace)
  choose directory line outputc output =
      if is_pos outputc
      then elim (first_output output) [ none ↦ none | some path ↦ some (some path, []) ]
      else some (scan_devices os directory line [])

  -- main after eargs_parse.
  unfoldable pub parsed :
      List ℕ
      → ℕ
      → List Reading
      → Option (List Entry)
      → Option (List ℕ)
      → ℤ × Output × Table (Option ClientConfig) × Memory (Option ClientConfig)
      → Option (ℤ × Trace)
  unfolding choose stream
  parsed buf fuel readings directory line (outputc, output, table, m) =
      elim (choose directory line outputc output) [
        | none ↦ none
        | some (none, t) ↦ some (pos 1, t)
        | some (some path, t) ↦ elim (configured m) [
          | none ↦ none
          | some c ↦ stream buf fuel readings (m.ints reopen_attempts) c t
        ]
      ]

  unfoldable pub main :
      Numerals
      → List ℕ
      → ℕ
      → List Reading
      → Option (List Entry)
      → Option (List ℕ)
      → List (List ℕ)
      → Option (ℤ × Trace)
  unfolding add_arguments parsed
  main num buf fuel readings directory line argv = elim (add_arguments num (live [])) [
    | none ↦ none
    | some table ↦
        elim (parse num argv (some (replicate (length argv) none)) table (defaults world)) [
          | none ↦ none
          | some r ↦ parsed buf fuel readings directory line r
        ]
  ]
