-- ===== src/Client/Run/Sends.antt =====
-- What the loop of run (client/input-client.c) sends.
use network_gamepads.Base.{ℕ, ◌≡◌, refl, ℤ, true, false, List, [], ◌∷◌, some, arith, All}
use network_gamepads.Os.{Os, Trace, Call, SendReply, InputEvent}
use network_gamepads.Network.{send_message}
use network_gamepads.Network.Sending.{send_message_whole}
use network_gamepads.Client.{data_message}
use network_gamepads.Client.Connect.{Device, ClientConfig}
use network_gamepads.Client.Run.{Signals, Reading, run_round, run_loop}

-- The system takes every DATA message whole.
abbrev pub TakesWhole : Os → ℤ → Type 0
TakesWhole os fd =
    (t : Trace) (e : InputEvent)
    → os.send_reply t (Call.send fd (data_message e) 0 9) ≡ SendReply.accepted 8

-- The events among what was read.
abbrev pub events_of : List Reading → List InputEvent
events_of [] = []
events_of (Reading.read_event e ∷ rest) = e ∷ events_of rest
events_of (_ ∷ rest) = events_of rest

-- The read gave an event or too few bytes.
abbrev pub Succeeds : Reading → Type 0
Succeeds Reading.read_failed = ⊥
Succeeds _ = Unit

-- The calls that send the events, in their order.
abbrev pub sent : ℤ → List InputEvent → Trace → Trace
sent fd [] t = t
sent fd (e ∷ es) t = sent fd es (Call.send fd (data_message e) 0 9 ∷ t)

send_message-data_message :
    (os : Os) (fd : ℤ) (e : InputEvent) (t : Trace)
    → TakesWhole os fd
    → send_message os fd (data_message e) t ≡ (true, Call.send fd (data_message e) 0 9 ∷ t)
unfolding data_message
send_message-data_message os fd e t whole =
    send_message_whole os fd (data_message e) t 8 (omega arith) (omega arith) (whole t e)

module _ (os : Os) (signals : Signals) (device : Device) (buf : List ℕ) (sock_fd : ℤ) where
  -- While no read fails, no signal comes and the system takes every message whole, the loop of run
  -- sends for each event that was read one message with the event, in the order of the events, and
  -- makes no other call.
  pub run_loop-sent :
      (fuel : ℕ) (attempts : ℤ) (readings : List Reading) (event_fd : ℤ) (config : ClientConfig)
      (t : Trace)
      → TakesWhole os sock_fd
      → ((t' : Trace) → signals.quit t' ≡ false)
      → All Succeeds readings
      → run_loop os signals device buf sock_fd fuel attempts readings event_fd config t
        ≡ some (sent sock_fd (events_of readings) t)
  unfolding run_loop run_round
  run_loop-sent fuel attempts [] event_fd config t whole on good = refl
  run_loop-sent fuel attempts (Reading.read_failed ∷ rest) event_fd config t whole on good =
      absurd good.0
  run_loop-sent fuel attempts (Reading.read_event e ∷ rest) event_fd config t whole on good =
      ground (
        arith,
        send_message-data_message os sock_fd e t whole,
        on (Call.send sock_fd (data_message e) 0 9 ∷ t),
        run_loop-sent fuel attempts rest event_fd config
            (Call.send sock_fd (data_message e) 0 9 ∷ t) whole on good.1,
      )
  run_loop-sent fuel attempts (Reading.read_short ∷ rest) event_fd config t whole on good =
      ground (arith, on t, run_loop-sent fuel attempts rest event_fd config t whole on good.1)
