-- ===== src/Server/Rounds/Allowed.antt =====
-- What every run of the server (main of server/input-server.c) keeps: the access list.
use network_gamepads.Base.{
  ℕ, zero, suc, ◌+◌, ◌≡◌, refl, sym, subst, inl, inr, ℤ, Bool, false, List, [], ◌∷◌, Option, none,
  some, arith, get_elem?, All, All-set, All-get_elem?, All-replicate, Option-cases, Bool-cases, set,
}
use network_gamepads.Os.{Os, Trace}
use network_gamepads.Server.State.{
  Config, GamepadClient, Session, empty_meta, init_client, max_clients, max_waiting_clients,
}
use network_gamepads.Server.Handlers.{client_close}
use network_gamepads.Server.Data.{recv_data}
use network_gamepads.Server.Data.Loop.{Returns}
use network_gamepads.Server.Data.Whitelist.{Allowed, client_data-AllAllowed}
use network_gamepads.Server.Hello.{Lobby}
use network_gamepads.Server.Hello.Metas.{client_hello-Keeping}
use network_gamepads.Server.Rounds.{
  Server, chain, start, serve_session, serve_client, serve_waiter, serve_waiting, for_slots,
  connect, round, run,
}

-- The events of a client that is closed are gone.
abbrev Closes : Option (ℤ × Session) → Type 0
Closes none = Unit
Closes (some (r, s)) = s.client.meta.enabled_events ≡ []

module _ (os : Os) (config : Config) where
  -- Every event that is enabled for the client is allowed.
  abbrev pub IsAllowed : GamepadClient → Type 0
  IsAllowed c = All (Allowed config) c.meta.enabled_events

  IsAllowed-same : (c d : GamepadClient) → d.meta ≡ c.meta → IsAllowed c → IsAllowed d
  IsAllowed-same c d e h = subst (λ m. All (Allowed config) m.enabled_events) (sym e) h

  IsAllowed-fresh : (c : GamepadClient) → c.meta ≡ empty_meta → IsAllowed c
  unfolding empty_meta
  IsAllowed-fresh c e = subst (λ m. All (Allowed config) m.enabled_events) (sym e) tt

  recv_data-meta : (s : Session) → Returns (λ b s'. s'.client.meta ≡ s.client.meta) (recv_data os s)
  unfolding recv_data
  recv_data-meta s = ground arith

  abbrev Serves : Option Session → Type 0
  Serves none = Unit
  Serves (some s) = IsAllowed s.client

  client_close-empty : (s : Session) → Closes (client_close os false s)
  unfolding client_close
  client_close-empty s = ground arith

  -- What is received and handled.
  abbrev After : Session → Option (Bool × Session) → Type 0
  After s none = Unit
  After s (some (b, s')) = s'.client.meta ≡ s.client.meta

  recv_data-After : (s : Session) → After s (recv_data os s)
  unfolding recv_data
  recv_data-After s = ground arith

  serve_session-Serves :
      (u : ℕ) (s : Session) → IsAllowed s.client → Serves (serve_session os config u s)
  unfolding serve_session
  serve_session-Serves u s h = elim (Option-cases (recv_data os s)) [
    | inl e ↦ ground arith
    | inr ((received, s'), e) ↦
        let kept : IsAllowed s'.client =
          IsAllowed-same s.client s'.client (subst (After s) e (recv_data-After s)) h in
        elim (Option-cases (client_close os false s')) [
          | inl e' ↦ ground (arith, client_data-AllAllowed os config u s' kept)
          | inr ((r, s''), e') ↦
              let closed : IsAllowed s''.client =
                subst (All (Allowed config)) (sym (subst Closes e' (client_close-empty s'))) tt in
              ground (arith, client_data-AllAllowed os config u s' kept)
        ]
  ]

  -- The clients of a server.
  abbrev pub Guards : Option Server → Type 0
  Guards none = Unit
  Guards (some sv) = All IsAllowed sv.clients

  serve_client-Guards :
      (ready : ℤ → Bool) (u : ℕ) (sv : Server)
      → All IsAllowed sv.clients
      → Guards (serve_client os config ready u sv)
  unfolding serve_client
  serve_client-Guards ready u sv h = elim (Option-cases (get_elem? sv.clients u)) [
    | inl e ↦ ground arith
    | inr (c, e) ↦
        let s : Session = record { client = c; trace = sv.trace } in
        let c_allowed : IsAllowed c = All-get_elem? IsAllowed sv.clients u c h e in
        elim (Option-cases (serve_session os config u s)) [
          | inl e' ↦ ground arith
          | inr (s', e') ↦
              let kept : All IsAllowed (set sv.clients u s'.client) =
                All-set IsAllowed sv.clients u s'.client h
                  (subst Serves e' (serve_session-Serves u s c_allowed)) in
              ground arith
        ]
  ]

  serve_waiting-Guards :
      (ready : ℤ → Bool) (u : ℕ) (sv : Server)
      → All IsAllowed sv.clients
      → Guards (serve_waiting os config ready u sv)
  unfolding serve_waiting serve_waiter
  serve_waiting-Guards ready u sv h = elim (Option-cases (get_elem? sv.waiting u)) [
    | inl e ↦ ground arith
    | inr (c, e) ↦ elim (Option-cases (recv_data os (record { client = c; trace = sv.trace }))) [
      | inl e' ↦ ground arith
      | inr ((received, s), e') ↦
          let l : Lobby = record { clients = sv.clients; waiter = s.client; trace = s.trace } in
          ground
            (arith, client_hello-Keeping IsAllowed IsAllowed-same IsAllowed-fresh os config l h)
    ]
  ]

  for_slots-Guards :
      (n i : ℕ) (body : ℕ → Server → Option Server) (sv : Server)
      → ((u : ℕ) (sv : Server) → All IsAllowed sv.clients → Guards (body u sv))
      → All IsAllowed sv.clients
      → Guards (for_slots n i body sv)
  unfolding for_slots
  for_slots-Guards zero i body sv keep h = h
  for_slots-Guards (suc n) i body sv keep h = elim (Option-cases (body i sv)) [
    | inl e ↦ ground arith
    | inr (sv', e) ↦
        let kept : All IsAllowed sv'.clients = subst Guards e (keep i sv h) in
        ground (arith, for_slots-Guards n (i + 1) body sv' keep kept)
  ]

  chain-Guards :
      (r : Option Server) (f : Server → Option Server)
      → Guards r
      → ((sv : Server) → All IsAllowed sv.clients → Guards (f sv))
      → Guards (chain r f)
  chain-Guards none f h keep = tt
  chain-Guards (some sv) f h keep = keep sv h

  connect-IsAllowed :
      (listener : ℤ) (ready : ℤ → Bool) (sv : Server)
      → All IsAllowed sv.clients
      → All IsAllowed (connect os listener ready sv).clients
  connect-IsAllowed listener ready sv h = elim (Bool-cases (ready listener)) [
    | inl e ↦ rw e h
    | inr e ↦ rw e h
  ]

  round-Guards :
      (listener : ℤ) (ready : ℤ → Bool) (sv : Server)
      → All IsAllowed sv.clients
      → Guards (round os config listener ready sv)
  unfolding round
  round-Guards listener ready sv h =
      chain-Guards
        (for_slots max_clients 0 (serve_client os config ready) (connect os listener ready sv))
        (for_slots max_waiting_clients 0 (serve_waiting os config ready))
        (for_slots-Guards max_clients 0 (serve_client os config ready)
          (connect os listener ready sv) (serve_client-Guards ready)
          (connect-IsAllowed listener ready sv h))
        (λ sv' h'.
          for_slots-Guards max_waiting_clients 0 (serve_waiting os config ready) sv'
            (serve_waiting-Guards ready) h')

  run_inv :
      (listener : ℤ) (readys : List (ℤ → Bool)) (sv : Server)
      → All IsAllowed sv.clients
      → Guards (run os config listener readys sv)
  unfolding run
  run_inv listener [] sv h = h
  run_inv listener (ready ∷ later) sv h =
      chain-Guards (round os config listener ready sv) (run os config listener later)
        (round-Guards listener ready sv h) (run_inv listener later)

  -- However many rounds the server makes with defined behaviour from its start, whatever calls it made
  -- before, whoever connects and whatever the clients send: each event that is enabled for the device
  -- of a client lies inside of the table and is allowed by it.
  pub run-IsAllowed :
      (listener : ℤ) (readys : List (ℤ → Bool)) (t : Trace)
      → Guards (run os config listener readys (record start { trace = t }))
  unfolding start
  run-IsAllowed listener readys t =
      run_inv listener readys (record start { trace = t })
        (All-replicate IsAllowed max_clients init_client (IsAllowed-fresh init_client refl))
