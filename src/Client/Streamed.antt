-- ===== src/Client/Streamed.antt =====
-- The events that run (client/input-client.c) reads, through the socket and client_data
-- (server/input-server.c) to the device of the server.
use network_gamepads.Base.{
  ℕ, ◌+◌, ◌*◌, ◌≡◌, refl, sym, ap, ◌∙◌, ℤ, pos, true, false, List, [], ◌∷◌, ◌++◌, some, arith, All,
  length, take, drop, if◌then◌else◌,
}
use mathlib.Core.List.{append_assoc, append-nil, append_cancel_left}
use mathlib.Core.Option.{some-injective}
use network_gamepads.Os.{Os, Trace, Call, SendReply, InputEvent}
use network_gamepads.Protocol.{message_success}
use network_gamepads.Network.Connecting.Sockets.{same, same_refl}
use network_gamepads.Server.State.{Config, Session}
use network_gamepads.Server.Data.{client_data}
use network_gamepads.Client.{data_message}
use network_gamepads.Client.Connect.{Device, ClientConfig}
use network_gamepads.Client.Delivery.{Fits, Takes, messages, deliver, after, client_data-messages}
use network_gamepads.Client.Run.{Signals, Reading, run_loop}
use network_gamepads.Client.Run.Sends.{TakesWhole, Succeeds, events_of, sent, run_loop-sent}

abbrev accepted_bytes : SendReply → List ℕ → List ℕ
accepted_bytes SendReply.failed object = []
accepted_bytes (SendReply.accepted k) object = take (k + 1) object

-- The bytes that the system has taken on a socket, the oldest first.
abbrev pub taken : Os → ℤ → Trace → List ℕ
taken os fd [] = []
taken os fd (Call.send fd' object offset len ∷ t) =
    if same fd fd'
    then taken os fd t
      ++ accepted_bytes (os.send_reply t (Call.send fd' object offset len)) (drop offset object)
    else taken os fd t
taken os fd (_ ∷ t) = taken os fd t

taken-data_message :
    (os : Os) (fd : ℤ) (e : InputEvent) (t : Trace)
    → TakesWhole os fd
    → taken os fd (Call.send fd (data_message e) 0 9 ∷ t) ≡ taken os fd t ++ data_message e
unfolding data_message
taken-data_message os fd e t whole = ground (arith, same_refl fd, whole t e)

taken-sent :
    (os : Os) (fd : ℤ) (es : List InputEvent) (t : Trace)
    → TakesWhole os fd
    → taken os fd (sent fd es t) ≡ taken os fd t ++ messages es
taken-sent os fd [] t whole = sym (append-nil (taken os fd t))
taken-sent os fd (e ∷ es) t whole =
    taken-sent os fd es (Call.send fd (data_message e) 0 9 ∷ t) whole
    ∙ ap (λ bytes. bytes ++ messages es) (taken-data_message os fd e t whole)
    ∙ append_assoc (taken os fd t) (data_message e) (messages es)

length-messages : (es : List InputEvent) → length (messages es) ≡ 9 * length es
unfolding data_message
length-messages [] = refl
length-messages (e ∷ es) = ground (arith, length-messages es)

module _ (os : Os) (signals : Signals) (device : Device) (buf : List ℕ) (sock_fd : ℤ) where
  -- If the loop of run reads events of 16, 16 and 32 bits, no read fails, no signal comes and the
  -- system takes every message whole, and if the bytes that it has taken during the loop are what
  -- waits in the buffer of a client of the server with the status SUCCESS, whose device takes events,
  -- then client_data writes exactly the events that were read to that device, in their order, and
  -- leaves no byte waiting.
  pub run_loop-client_data :
      (fuel : ℕ) (attempts : ℤ) (readings : List Reading) (event_fd : ℤ) (config : ClientConfig)
      → (t t' : Trace) (bytes rest : List ℕ) (server : Os) (settings : Config) (slot : ℕ)
        (s : Session)
      → TakesWhole os sock_fd
      → ((t'' : Trace) → signals.quit t'' ≡ false)
      → All Succeeds readings
      → All Fits (events_of readings)
      → run_loop os signals device buf sock_fd fuel attempts readings event_fd config t ≡ some t'
      → taken os sock_fd t' ≡ taken os sock_fd t ++ bytes
      → Takes server s.client.ev_fd
      → s.client.status ≡ message_success
      → drop s.client.scan_offset s.client.input_buffer ≡ bytes ++ rest
      → s.client.bytes_available ≡ pos (length bytes)
      → client_data server settings slot s
        ≡ some (
          true,
          after s (length bytes) (pos 0) (deliver s.client.ev_fd (events_of readings) s.trace),
        )
  run_loop-client_data fuel attempts readings event_fd config t t' bytes rest server settings slot s
        whole quiet good fits ran wire takes status buffer available =
      let es : List InputEvent = events_of readings in
      let end : t' ≡ sent sock_fd es t = some-injective t' (sent sock_fd es t) (
        sym ran
        ∙ run_loop-sent os signals device buf sock_fd fuel attempts readings event_fd config t whole
            quiet good) in
      let same_bytes : bytes ≡ messages es =
        append_cancel_left (taken os sock_fd t) bytes (messages es)
          (sym wire ∙ ap (taken os sock_fd) end ∙ taken-sent os sock_fd es t whole) in
      let count : length bytes ≡ 9 * length es = ap length same_bytes ∙ length-messages es in
      client_data-messages server settings slot es rest s takes fits status
        (buffer ∙ ap (λ b. b ++ rest) same_bytes) (available ∙ ap pos count)
      ∙ ap (λ n. some (true, after s n (pos 0) (deliver s.client.ev_fd es s.trace))) (sym count)
