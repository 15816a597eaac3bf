-- ===== src/Client/Run.antt =====
-- device_reopen, set_slot and run of client/input-client.c. A signal sets quit_signal at any time,
-- and `errno` is read after a call has failed: both are functions of the calls made so far.
pub mod Sends
pub mod Reopening
use network_gamepads.Base.{
  ℕ, zero, suc, ◌+◌, ℤ, pos, minus_one, ◌-ℤ◌, is_neg, Bool, true, false, not, ◌||◌, List, [], ◌∷◌,
  Option, none, some, length, ltb, ◌==◌, if◌then◌else◌,
}
use network_gamepads.Os.{Os, Trace, Call, InputEvent}
use network_gamepads.Protocol.{message_quit}
use network_gamepads.Network.{send_message}
use network_gamepads.Network.Connecting.{is_zero, tcp_connect}
use network_gamepads.Client.{data_message}
use network_gamepads.Client.Connect.{Device, ClientConfig, init_connect}

-- What the surroundings decide: whether the signal has come, and whether errno is ECONNRESET or EPIPE.
pub record Signals : Type 0 where
  pub quit : Trace → Bool
  pub is_reset : Trace → Bool

-- set_slot, given the number that strtoul reads.
unfoldable pub set_slot : ℕ → ClientConfig → ℤ × ClientConfig
set_slot value config =
    if ltb 255 value || value == 0
    then (minus_one, config)
    else (pos 1, record config { slot = value })

-- device_reopen with `counter` attempts left, a negative number being no limit, on fuel: one unit for
-- each test of the loop. The result is the status and the descriptor.
unfoldable pub device_reopen : Os → Signals → ℕ → ℤ → ℤ → Trace → Option (ℤ × ℤ × Trace)
device_reopen os signals zero counter fd t = none
device_reopen os signals (suc fuel) counter fd t =
    let fd' = os.result t Call.open_device in
    let opened = Call.open_device ∷ t in
    elim (signals.quit t || is_zero counter) [
      | true ↦ some (minus_one, fd, t)
      | false ↦ elim (is_neg fd') [
        | true ↦ device_reopen os signals fuel (counter -ℤ pos 1) fd' (Call.sleep ∷ opened)
        | false ↦
            if is_neg (os.result opened (Call.grab fd'))
            then some (minus_one, fd', Call.close fd' ∷ Call.grab fd' ∷ opened)
            else some (pos 0, fd', Call.grab fd' ∷ opened)
      ]
    ]

-- What read gives: an error, an event, or another number of bytes.
pub data Reading : Type 0 where
  read_failed : Reading
  read_event : InputEvent → Reading
  read_short : Reading

-- What becomes of the loop: it goes on with the descriptor of the device and the configuration, or
-- ends.
pub data Next : Type 0 where
  go_on : ℤ → ClientConfig → Trace → Next
  break : Trace → Next

module _ (os : Os) (signals : Signals) (device : Device) (buf : List ℕ) (sock_fd : ℤ) where
  -- A failed read: the device is opened again, with `attempts` attempts and fuel.
  reopen : ℕ → ℤ → ℤ → ClientConfig → Trace → Option Next
  unfolding device_reopen
  reopen fuel attempts event_fd config t =
      elim (device_reopen os signals fuel attempts event_fd (Call.close event_fd ∷ t)) [
        | none ↦ none
        | some (status, fd, t') ↦
            if is_neg status then some (break t') else some (go_on fd config t')
      ]

  -- An event that could not be sent: where the connection was reset, init_connect is called again.
  reconnect : ℤ → ClientConfig → Trace → Option Next
  reconnect event_fd config t =
      if signals.is_reset t
      then elim (init_connect os sock_fd device buf config t) [
        | none ↦ none
        | some (true, config', t') ↦ some (go_on event_fd config' t')
        | some (false, config', t') ↦ some (break t')
      ]
      else some (break t)

  deliver_event : InputEvent → ℤ → ClientConfig → Trace → Option Next
  unfolding reconnect
  deliver_event event event_fd config t =
      let (sent, t') = send_message os sock_fd (data_message event) t in
      if sent then some (go_on event_fd config t') else reconnect event_fd config t'

  -- One round of the loop.
  unfoldable pub run_round : ℕ → ℤ → Reading → ℤ → ClientConfig → Trace → Option Next
  unfolding reopen deliver_event
  run_round fuel attempts read_failed event_fd config t = reopen fuel attempts event_fd config t
  run_round fuel attempts (read_event event) event_fd config t =
      deliver_event event event_fd config t
  run_round fuel attempts read_short event_fd config t = some (go_on event_fd config t)

  -- The loop, over what read gives; it ends with a signal.
  unfoldable pub run_loop : ℕ → ℤ → List Reading → ℤ → ClientConfig → Trace → Option Trace
  unfolding run_round
  run_loop fuel attempts [] event_fd config t = some t
  run_loop fuel attempts (r ∷ later) event_fd config t =
      elim (run_round fuel attempts r event_fd config t) [
        | none ↦ none
        | some (break t') ↦ some t'
        | some (go_on fd config' t') ↦
            let rest = run_loop fuel attempts later fd config' t' in
            if signals.quit t' then some t' else rest
      ]

  -- The end of run: a QUIT message, and the close.
  unfoldable pub farewell : Trace → Trace
  farewell t = Call.close sock_fd ∷ (send_message os sock_fd (message_quit ∷ []) t).1

  -- run from the connection on.
  run_connected : ℕ → ℤ → List Reading → ℤ → ClientConfig → Trace → Option (ℤ × Trace)
  unfolding run_loop farewell
  run_connected fuel attempts readings event_fd config t =
      elim (init_connect os sock_fd device buf config t) [
        | none ↦ none
        | some (false, config', t') ↦ some (pos 3, Call.close sock_fd ∷ t')
        | some (true, config', t') ↦
            if is_neg (os.result t' (Call.grab event_fd))
            then some (pos 4, Call.close sock_fd ∷ Call.grab event_fd ∷ t')
            else if signals.quit (Call.grab event_fd ∷ t')
            then some (pos 0, farewell (Call.grab event_fd ∷ t'))
            else elim (run_loop fuel attempts readings event_fd config' (Call.grab event_fd ∷ t')) [
              | none ↦ none
              | some t'' ↦ some (pos 0, farewell t'')
            ]
      ]

-- run; `addresses` is what getaddrinfo finds for the host.
pub run :
    Os
    → Signals
    → Device
    → List ℕ
    → Option (List ℕ)
    → ℕ
    → ℤ
    → List Reading
    → ℤ
    → ClientConfig
    → Trace
    → Option (ℤ × Trace)
unfolding run_connected
run os signals device buf addresses fuel attempts readings event_fd config t =
    if is_neg (os.result t Call.sigaction)
    then some (pos 10, Call.sigaction ∷ t)
    else (let (sock_fd, t') = tcp_connect os addresses (Call.sigaction ∷ t) in
        if is_neg sock_fd
        then some (pos 2, t')
        else run_connected os signals device buf sock_fd fuel attempts readings event_fd config t')
