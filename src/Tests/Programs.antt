-- ===== src/Tests/Programs.antt =====
-- The theorems about the programs as a whole at concrete inputs.
use network_gamepads.Base.{
  map, ◌≡◌, refl, ℤ, Bool, pos, true, false, List, [], ◌∷◌, none, some, text, arith, length,
  replicate,
}
use network_gamepads.Os.{InputEvent, Trace}
use network_gamepads.Settings.{World, getenv_or, default_host, default_port}
use network_gamepads.Client.Run.{Signals, Reading, run_loop, device_reopen}
use network_gamepads.Protocol.{message_success}
use network_gamepads.Server.Data.{client_data}
use network_gamepads.Client.{data_message}
use network_gamepads.Client.Delivery.{after, deliver, messages}
use network_gamepads.Client.Streamed.{taken, run_loop-client_data}
use network_gamepads.Client.Run.Sends.{sent, run_loop-sent}
use network_gamepads.Client.Run.Reopening.{Reopened, device_reopen-Reopened}
use network_gamepads.Client.Main.{main as client_main}
use network_gamepads.Client.Main.Wrong.{main-help}
use network_gamepads.Server.Main.{main, serve}
use network_gamepads.Acl.Listed.{line_of}
use network_gamepads.Server.State.{Config}
use network_gamepads.Server.Rounds.{run, start}
use network_gamepads.Server.Main.Guarded.{OnlyListed, main-OnlyListed}
use network_gamepads.Tests.System.{friendly, two_letters, holding}
use network_gamepads.Tests.Acl.{letters, two_items, two_items-IsGood}
use network_gamepads.Tests.Args.{lengths}
use network_gamepads.Tests.Clients.{one_key, any_slot_wanted}

-- No signal comes.
abbrev quiet : Signals
quiet = record { quit = λ t. false; is_reset = λ t. false }

-- The environment is empty, and every host has one address.
abbrev bare : World
bare = record { env = λ name. none; resolve = λ h p. some (1 ∷ []) }

abbrev key_down : InputEvent
key_down = record { type = 1; code = 30; value = 1 }

abbrev key_up : InputEvent
key_up = record { type = 1; code = 30; value = 0 }

abbrev two_events : List Reading
two_events = Reading.read_event key_down ∷ Reading.read_short ∷ Reading.read_event key_up ∷ []

-- The loop sends both events, in bytes that wait at the server.
abbrev both : List InputEvent
both = key_down ∷ key_up ∷ []

two_events-sent :
    run_loop friendly quiet one_key [] (pos 5) 1 (pos 0) two_events (pos 3) any_slot_wanted []
    ≡ some (sent (pos 5) both [])
two_events-sent =
    run_loop-sent friendly quiet one_key [] (pos 5) 1 (pos 0) two_events (pos 3) any_slot_wanted []
      (λ t e. refl) (λ t. refl) (tt, (tt, (tt, tt)))

both-taken : taken friendly (pos 5) (sent (pos 5) both []) ≡ messages both
unfolding data_message
both-taken = refl

run_loop-client_data_example :
    client_data friendly two_letters 0 (holding message_success (messages both))
    ≡ some (
      true,
      after
          (holding message_success (messages both))
          (length (messages both))
          (pos 0)
          (deliver (holding message_success (messages both)).client.ev_fd both []),
    )
unfolding data_message
run_loop-client_data_example =
    run_loop-client_data friendly quiet one_key [] (pos 5) 1 (pos 0) two_events (pos 3)
      any_slot_wanted [] (sent (pos 5) both []) (messages both) (replicate 1006 0) friendly
      two_letters 0 (holding message_success (messages both)) (λ t e. refl) (λ t. refl)
      (tt, (tt, (tt, tt))) (omega arith) two_events-sent both-taken (λ t e. refl) refl refl refl

device_reopen-Reopened_example :
    Reopened friendly 2 [] (device_reopen friendly quiet 3 (pos 2) (pos 3) [])
device_reopen-Reopened_example = device_reopen-Reopened friendly quiet 2 3 (pos 3) [] (omega arith)

main-help_example :
    client_main friendly quiet one_key bare lengths [] 1 []
      (some [])
      none
      ([] ∷ text "--help" ∷ text "event0" ∷ [])
    ≡ client_main friendly quiet one_key bare lengths [] 1 [] (some []) none ([] ∷ [])
main-help_example =
    main-help friendly quiet one_key bare lengths [] 1 [] (some []) none [] (text "event0" ∷ [])

main-OnlyListed_example :
    (config : Config) × (main friendly bare lengths letters
        (λ name. some (map line_of two_items))
        []
        ([] ∷ text "--whitelist" ∷ [] ∷ [])
      ≡ serve friendly bare [] (
        getenv_or bare (text "SERVER_HOST") default_host,
        getenv_or bare (text "SERVER_PORT") default_port,
        config,
      ))
    × ((listener : ℤ) (readys : List (ℤ → Bool)) (t : Trace)
        → OnlyListed letters two_items
            (run friendly config listener readys (record start { trace = t })))
main-OnlyListed_example =
    main-OnlyListed letters two_items friendly bare lengths (λ name. some (map line_of two_items))
      [] [] [] refl two_items-IsGood
