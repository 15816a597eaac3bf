-- ===== src/Server/Rounds.antt =====
-- main of server/input-server.c from the initialisation of the clients on: the core loop around
-- select, and the shutdown. `ready` is the set of descriptors that select reports.
pub mod Allowed
use network_gamepads.Base.{
  ℕ, zero, suc, ◌+◌, ℤ, pos, minus_one, Bool, true, false, List, [], ◌∷◌, Option, none, some,
  get_elem?, set, replicate, if◌then◌else◌,
}
use network_gamepads.Os.{Os, Trace, Call}
use network_gamepads.Server.State.{
  Config, GamepadClient, Session, max_clients, max_waiting_clients, init_client,
}
use network_gamepads.Server.Handlers.{client_close}
use network_gamepads.Server.Data.{client_data, recv_data}
use network_gamepads.Server.Hello.{client_hello, client_connection}

pub record Server : Type 0 where
  pub clients : List GamepadClient
  pub waiting : List GamepadClient
  pub trace : Trace

unfoldable pub start : Server
unfolding init_client
start = record {
  clients = replicate max_clients init_client;
  waiting = replicate max_waiting_clients init_client;
  trace = [];
}

abbrev chain : {A B : Type 0} → Option A → (A → Option B) → Option B
chain none f = none
chain (some a) f = f a

-- The client's part of a round: data is received and handled, or the connection closed.
serve_session : Os → Config → ℕ → Session → Option Session
serve_session os config u s = chain (recv_data os s) λ r.
    if r.0
    then chain (client_data os config u r.1) (λ d. some d.1)
    else chain (client_close os false r.1) (λ d. some d.1)

unfoldable pub serve_client : Os → Config → (ℤ → Bool) → ℕ → Server → Option Server
unfolding serve_session
serve_client os config ready u sv = chain (get_elem? sv.clients u) λ c.
    if ready c.fd
    then chain (serve_session os config u (record { client = c; trace = sv.trace }))
        (λ s. some (record sv { clients = set sv.clients u s.client; trace = s.trace }))
    else some sv

-- A waiting connection that fails to receive is dropped.
abbrev hang_up : Session → Session
hang_up s = record {
  client = record s.client { fd = minus_one };
  trace = Call.close s.client.fd ∷ s.trace;
}

abbrev rewind : GamepadClient → GamepadClient
rewind c = record c { bytes_available = pos 0; scan_offset = 0 }

-- After client_hello: a refused connection leaves an empty buffer.
abbrev settle_waiter : Bool → GamepadClient → GamepadClient
settle_waiter accepted c = if accepted then c else rewind c

serve_waiter : Os → Config → List GamepadClient → Session → Option (List GamepadClient × Session)
serve_waiter os config clients s = chain (recv_data os s) λ r.
    if r.0
    then chain
        (client_hello os config
          (record { clients = clients; waiter = r.1.client; trace = r.1.trace }))
        (λ h.
          some (h.1.clients, record { client = settle_waiter h.0 h.1.waiter; trace = h.1.trace }))
    else some (clients, hang_up r.1)

unfoldable pub serve_waiting : Os → Config → (ℤ → Bool) → ℕ → Server → Option Server
unfolding serve_waiter
serve_waiting os config ready u sv = chain (get_elem? sv.waiting u) λ c.
    if ready c.fd
    then chain (serve_waiter os config sv.clients (record { client = c; trace = sv.trace })) (λ r.
      some (record { clients = r.0; waiting = set sv.waiting u r.1.client; trace = r.1.trace }))
    else some sv

-- for (u = i; u < i + n; u++)
for_slots : ℕ → ℕ → (ℕ → Server → Option Server) → Server → Option Server
for_slots zero i body sv = some sv
for_slots (suc n) i body sv = chain (body i sv) (for_slots n (i + 1) body)

abbrev connect : Os → ℤ → (ℤ → Bool) → Server → Server
connect os listener ready sv =
    if ready listener
    then (let (_, queue, t) = client_connection os listener sv.waiting sv.trace in
        record sv { waiting = queue; trace = t })
    else sv

-- One turn of the core loop, after a select that succeeded.
unfoldable pub round : Os → Config → ℤ → (ℤ → Bool) → Server → Option Server
unfolding for_slots
round os config listener ready sv =
    chain (for_slots max_clients 0 (serve_client os config ready) (connect os listener ready sv))
      (for_slots max_waiting_clients 0 (serve_waiting os config ready))

-- The core loop, until select fails or a signal ends it: the results of select, in order.
unfoldable pub run : Os → Config → ℤ → List (ℤ → Bool) → Server → Option Server
unfolding round
run os config listener [] sv = some sv
run os config listener (ready ∷ later) sv =
    chain (round os config listener ready sv) (run os config listener later)

close_client : Os → ℕ → Server → Option Server
close_client os u sv = chain (get_elem? sv.clients u) λ c.
    chain (client_close os true (record { client = c; trace = sv.trace }))
      λ d. some (record sv { clients = set sv.clients u d.1.client; trace = d.1.trace })

-- What main does behind the core loop.
unfoldable pub shutdown : Os → ℤ → Server → Option Server
unfolding for_slots close_client
shutdown os listener sv =
    chain (for_slots max_clients 0 (close_client os) sv)
      (λ sv. some (record sv { trace = Call.close listener ∷ sv.trace }))
