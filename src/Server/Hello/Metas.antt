-- ===== src/Server/Hello/Metas.antt =====
-- client_hello (server/input-server.c) and what the clients say of their devices: it changes that
-- only where it empties a slot.
use network_gamepads.Base.{
  ◌⊎◌, ◌&&◌, pos, replicate, ℕ, zero, suc, ◌-◌, ◌≡◌, refl, subst, inl, inr, Bool, List, [], ◌∷◌,
  Option, none, some, arith, get_elem?, All, All-set, All-get_elem?, Option-cases, Bool-cases,
  is_neg, set,
}
use network_gamepads.Os.{Os}
use network_gamepads.Network.{send_message}
use network_gamepads.Protocol.{
  input_buffer_size, message_invalid, message_version_mismatch, message_invalid_client_slot,
  message_client_slot_in_use, message_client_slots_exhausted,
}
use network_gamepads.Uinput.{cleanup_device}
use network_gamepads.Uinput.Setup.{Holds}
use network_gamepads.Server.State.{Config, GamepadClient, Session, empty_meta}
use network_gamepads.Server.Hello.{
  Lobby, find_slot, reject, cleanup_slot, reuse_slot, choose_slot, assign_slot, greeting, greet,
  welcome, request_slot, enter_slot, any_slot, hello_message, hello_fields, client_hello,
}

-- cleanup_device leaves what the client says of its device, or empties it.
cleanup_device-meta :
    (os : Os) (s : Session)
    → Holds
        (λ b s'. (s'.client.meta ≡ s.client.meta) ⊎ (s'.client.meta ≡ empty_meta))
        (cleanup_device os s)
unfolding cleanup_device
cleanup_device-meta os s = ground arith

module _ (P : GamepadClient → Type 0) (same : (c d : GamepadClient) → d.meta ≡ c.meta → P c → P d)
    (fresh : (c : GamepadClient) → c.meta ≡ empty_meta → P c) where
  abbrev pub Keeping : Option (Bool × Lobby) → Type 0
  Keeping none = Unit
  Keeping (some (b, l)) = All P l.clients

  abbrev Choosing : Option (ℕ × Lobby) → Type 0
  Choosing none = Unit
  Choosing (some (u, l)) = All P l.clients

  reject-Keeping :
      (os : Os) (reason : ℕ) (l : Lobby) → All P l.clients → Keeping (reject os reason l)
  unfolding reject
  reject-Keeping os reason l h = h

  greet-Keeping :
      (os : Os) (status u : ℕ) (c : GamepadClient) (l : Lobby)
      → P c
      → All P l.clients
      → Keeping (some (greet os status u c l))
  unfolding greet
  greet-Keeping os status u c l p h =
      let d : GamepadClient = record c {
        fd = l.waiter.fd;
        scan_offset = 0;
        bytes_available = pos 0;
        input_buffer = replicate input_buffer_size 0;
        status = status;
      } in
      let kept : All P (set l.clients u d) = All-set P l.clients u d h (same c d refl p) in
      elim (Bool-cases (send_message os l.waiter.fd (status ∷ []) l.trace).0) [
        | inl e ↦ rw (e, Keeping) kept
        | inr e ↦ rw (e, Keeping) h
      ]

  welcome-Keeping :
      (os : Os) (config : Config) (u : ℕ) (l : Lobby)
      → All P l.clients
      → Keeping (welcome os config u l)
  unfolding welcome
  welcome-Keeping os config u l h = elim (Option-cases (get_elem? l.clients u)) [
    | inl e ↦ rw (e, Keeping, welcome) tt
    | inr (c, e) ↦
        rw (e, Keeping, welcome)
          (greet-Keeping os (greeting config c.ev_fd) u c l (All-get_elem? P l.clients u c h e) h)
  ]

  cleanup_slot-Keeping :
      (os : Os) (u : ℕ) (l l' : Lobby)
      → All P l.clients
      → cleanup_slot os u l ≡ some l'
      → All P l'.clients
  unfolding cleanup_slot
  cleanup_slot-Keeping os u l l' h e = elim (Option-cases (get_elem? l.clients u)) [
    | inl n ↦ ground arith
    | inr (c, n) ↦
        let s : Session = record { client = c; trace = l.trace } in
        elim (Option-cases (cleanup_device os s)) [
          | inl none_left ↦ ground arith
          | inr ((b, s'), done) ↦
              let p : P c = All-get_elem? P l.clients u c h n in
              let metas : Holds
                  (λ b s'. (s'.client.meta ≡ s.client.meta) ⊎ (s'.client.meta ≡ empty_meta))
                  (some (b, s')) =
                subst
                  (Holds (λ b s'. (s'.client.meta ≡ s.client.meta) ⊎ (s'.client.meta ≡ empty_meta)))
                  done (cleanup_device-meta os s) in
              let p' : P s'.client = elim metas [
                | inl m ↦ same c s'.client m p
                | inr m ↦ fresh s'.client m
              ] in
              let is : l' ≡ record l { clients = set l.clients u s'.client; trace = s'.trace } =
                ground arith in
              rw is (All-set P l.clients u s'.client h p')
        ]
  ]

  reuse_slot-Choosing :
      (os : Os) (l : Lobby) (found : Option ℕ) → All P l.clients → Choosing (reuse_slot os l found)
  unfolding reuse_slot
  reuse_slot-Choosing os l none h = h
  reuse_slot-Choosing os l (some u) h = elim (Option-cases (cleanup_slot os u l)) [
    | inl e ↦ rw (e, Choosing) tt
    | inr (l', e) ↦ rw (e, Choosing) (cleanup_slot-Keeping os u l l' h e)
  ]

  assign_slot-Choosing : (os : Os) (l : Lobby) → All P l.clients → Choosing (assign_slot os l)
  unfolding assign_slot
  assign_slot-Choosing os l h = choose (find_slot (λ c. is_neg c.fd && is_neg c.ev_fd) l.clients)
    where
      choose : (found : Option ℕ) → Choosing (choose_slot os l found)
      choose none = reuse_slot-Choosing os l (find_slot (λ c. is_neg c.fd) l.clients) h
      choose (some u) = h

  enter_slot-Keeping :
      (os : Os) (config : Config) (r : Option (ℕ × Lobby))
      → Choosing r
      → Keeping (enter_slot os config r)
  unfolding enter_slot
  enter_slot-Keeping os config none h = tt
  enter_slot-Keeping os config (some (zero, l)) h =
      reject-Keeping os message_client_slots_exhausted l h
  enter_slot-Keeping os config (some (suc u, l)) h =
      welcome-Keeping os config u
        (record l {
          waiter = record l.waiter { input_buffer = set l.waiter.input_buffer 2 (suc u) };
        })
        h

  request_slot-Keeping :
      (os : Os) (config : Config) (u : ℕ) (l : Lobby)
      → All P l.clients
      → Keeping (request_slot os config u l)
  unfolding request_slot
  request_slot-Keeping os config u l h = ground (
    arith,
    reject-Keeping os message_invalid_client_slot l h,
    reject-Keeping os message_client_slot_in_use l h,
    welcome-Keeping os config u l h,
  )

  hello_message-Keeping :
      (os : Os) (config : Config) (kind version slot : ℕ) (l : Lobby)
      → All P l.clients
      → Keeping (hello_message os config kind version slot l)
  unfolding hello_message any_slot
  hello_message-Keeping os config kind version slot l h = ground (
    arith,
    reject-Keeping os message_invalid l h,
    reject-Keeping os message_version_mismatch l h,
    enter_slot-Keeping os config (assign_slot os l) (assign_slot-Choosing os l h),
    request_slot-Keeping os config (slot - 1) l h,
  )

  hello_fields-Keeping :
      (os : Os) (config : Config) (buf : List ℕ) (l : Lobby)
      → All P l.clients
      → Keeping (hello_fields os config buf l)
  unfolding hello_fields
  hello_fields-Keeping os config (kind ∷ version ∷ slot ∷ rest) l h =
      hello_message-Keeping os config kind version slot l h
  hello_fields-Keeping os config (kind ∷ version ∷ []) l h = tt
  hello_fields-Keeping os config (kind ∷ []) l h = tt
  hello_fields-Keeping os config [] l h = tt

  -- client_hello keeps what holds of the clients' devices.
  pub client_hello-Keeping :
      (os : Os) (config : Config) (l : Lobby) → All P l.clients → Keeping (client_hello os config l)
  unfolding client_hello
  client_hello-Keeping os config l h =
      ground (arith, hello_fields-Keeping os config l.waiter.input_buffer l h)
