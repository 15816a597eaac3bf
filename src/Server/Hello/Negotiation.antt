-- ===== src/Server/Hello/Negotiation.antt =====
-- client_hello of server/input-server.c as a whole: one connection for a slot.
use network_gamepads.Base.{
  ℕ, zero, suc, ◌-◌, ◌≡◌, refl, ap, subst, inl, inr, ℤ, is_neg, is_pos, Bool, true, false, List, [],
  ◌∷◌, Option, none, some, arith, get_elem?, set, leb, ◌==◌, Option-cases, Bool-cases,
}
use network_gamepads.Os.{Os}
use network_gamepads.Protocol.{
  message_hello, protocol_version, message_invalid_client_slot, message_client_slot_in_use,
  message_client_slots_exhausted, message_invalid, message_version_mismatch,
}
use network_gamepads.Uinput.{cleanup_device}
use network_gamepads.Uinput.Setup.{Holds, cleanup_device-Keeps}
use network_gamepads.Server.State.{Config, GamepadClient, Session, max_clients, Keeps}
use network_gamepads.Server.Hello.{
  Lobby, find_slot, cleanup_slot, is_free, is_clean, reuse_slot, choose_slot, assign_slot,
  enter_slot, note_slot, welcome, request_slot, any_slot, hello_message, hello_fields, client_hello,
  is_short,
}
use network_gamepads.Server.Hello.Slots.{
  fd_at, Near, Near-set, Near-refl, Negotiated, find_slot-some, reject-Negotiated,
  welcome-Negotiated,
}

-- The slot that is given has no connection, and its client may have lost its device.
abbrev Assigned : Lobby → Option (ℕ × Lobby) → Type 0
Assigned l none = Unit
Assigned l (some (zero, l')) = l' ≡ l
Assigned l (some (suc u, l')) =
    (c : GamepadClient) × (get_elem? l.clients u ≡ some c)
    × (is_neg c.fd ≡ true)
    × Near u l.clients l'.clients
    × (l'.waiter ≡ l.waiter)

-- The same of the slot whose device is removed.
abbrev Cleaned : ℕ → Lobby → Option Lobby → Type 0
Cleaned u l none = Unit
Cleaned u l (some l') = Near u l.clients l'.clients × (l'.waiter ≡ l.waiter)

cleanup_slot-Cleaned :
    (os : Os) (u : ℕ) (c : GamepadClient) (l : Lobby)
    → get_elem? l.clients u ≡ some c
    → Cleaned u l (cleanup_slot os u l)
unfolding cleanup_slot
cleanup_slot-Cleaned os u c l e =
    rw (e, cleanup_slot) (at (cleanup_device os s) (cleanup_device-Keeps os s))
  where
    s : Session
    s = record { client = c; trace = l.trace }

    at :
        (r : Option (Bool × Session))
        → Holds (λ b s'. Keeps s s') r
        → Cleaned u l (elim r [
          | none ↦ none
          | some (_, s') ↦ some (record l { clients = set l.clients u s'.client; trace = s'.trace })
        ])
    at none k = tt
    at (some (b, s')) k = (Near-set u l.clients c s'.client e k.0, refl)

reuse_slot-Assigned :
    (os : Os) (l : Lobby) (o : Option ℕ)
    → find_slot is_free l.clients ≡ o
    → Assigned l (reuse_slot os l o)
unfolding reuse_slot
reuse_slot-Assigned os l none e = refl
reuse_slot-Assigned os l (some u) e =
    let (c, g, free) = find_slot-some is_free l.clients u e in
    at c g free (cleanup_slot os u l) (cleanup_slot-Cleaned os u c l g)
  where
    at :
        (c : GamepadClient)
        → get_elem? l.clients u ≡ some c
        → is_neg c.fd ≡ true
        → (r : Option Lobby) → Cleaned u l r
        → Assigned l (elim r [ none ↦ none | some l' ↦ some (suc u, l') ])
    at c g free none k = tt
    at c g free (some l') k = (c, g, free, k.0, k.1)

choose_slot-Assigned :
    (os : Os) (l : Lobby) (o : Option ℕ)
    → find_slot is_clean l.clients ≡ o
    → Assigned l (choose_slot os l o)
unfolding choose_slot
choose_slot-Assigned os l none e = reuse_slot-Assigned os l (find_slot is_free l.clients) refl
choose_slot-Assigned os l (some u) e =
    let (c, g, clean) = find_slot-some is_clean l.clients u e in
    (c, g, ground arith, Near-refl u l.clients, refl)

assign_slot-Assigned : (os : Os) (l : Lobby) → Assigned l (assign_slot os l)
unfolding assign_slot
assign_slot-Assigned os l = choose_slot-Assigned os l (find_slot is_clean l.clients) refl

free-not-open : (fd : ℤ) → is_neg fd ≡ true → is_pos fd ≡ false
free-not-open fd h = ground arith

enter_slot-Negotiated :
    (os : Os) (config : Config) (l : Lobby) (r : Option (ℕ × Lobby))
    → Assigned l r
    → Negotiated l.clients l.waiter.fd (enter_slot os config r)
unfolding enter_slot
enter_slot-Negotiated os config l none a = tt
enter_slot-Negotiated os config l (some (zero, l')) a =
    reject-Negotiated os message_client_slots_exhausted l.clients l'
      (λ j. ap (λ (k : Lobby). fd_at k.clients j) a)
enter_slot-Negotiated os config l (some (suc u, l')) (c, g, free, near, w) =
    subst (λ fd. Negotiated l.clients fd (welcome os config u (note_slot (suc u) l')))
      (ap (λ (k : GamepadClient). k.fd) w)
      (welcome-Negotiated os config u l.clients c (note_slot (suc u) l') g (free-not-open c.fd free)
        near)

any_slot-Negotiated :
    (os : Os) (config : Config) (l : Lobby)
    → Negotiated l.clients l.waiter.fd (any_slot os config l)
unfolding any_slot
any_slot-Negotiated os config l =
    enter_slot-Negotiated os config l (assign_slot os l) (assign_slot-Assigned os l)

request_slot-Negotiated :
    (os : Os) (config : Config) (u : ℕ) (l : Lobby)
    → Negotiated l.clients l.waiter.fd (request_slot os config u l)
unfolding request_slot
request_slot-Negotiated os config u l = elim (Bool-cases (leb max_clients u)) [
  | inl big ↦ rw big (reject-Negotiated os message_invalid_client_slot l.clients l (λ j. refl))
  | inr small ↦ rw small (elim (Option-cases (get_elem? l.clients u)) [
    | inl e ↦ rw (e, request_slot) tt
    | inr (c, e) ↦
        rw (e, request_slot)
          (elim (Bool-cases (is_pos c.fd)) [
            | inl used ↦
                rw used (reject-Negotiated os message_client_slot_in_use l.clients l (λ j. refl))
            | inr free ↦
                rw free
                  (welcome-Negotiated os config u l.clients c l e free (Near-refl u l.clients))
          ])
  ])
]

hello_message-Negotiated :
    (os : Os) (config : Config) (kind version slot : ℕ) (l : Lobby)
    → Negotiated l.clients l.waiter.fd (hello_message os config kind version slot l)
unfolding hello_message
hello_message-Negotiated os config kind version slot l = elim (Bool-cases (kind == message_hello)) [
  | inr other ↦ rw other (reject-Negotiated os message_invalid l.clients l (λ j. refl))
  | inl hello ↦ rw hello (elim (Bool-cases (version == protocol_version)) [
    | inr old ↦ rw old (reject-Negotiated os message_version_mismatch l.clients l (λ j. refl))
    | inl same ↦ rw same (elim (Bool-cases (slot == 0)) [
      | inl any ↦ rw any (any_slot-Negotiated os config l)
      | inr one ↦ rw one (request_slot-Negotiated os config (slot - 1) l)
    ])
  ])
]

hello_fields-Negotiated :
    (os : Os) (config : Config) (buffer : List ℕ) (l : Lobby)
    → Negotiated l.clients l.waiter.fd (hello_fields os config buffer l)
unfolding hello_fields
hello_fields-Negotiated os config [] l = tt
hello_fields-Negotiated os config (a ∷ []) l = tt
hello_fields-Negotiated os config (a ∷ b ∷ []) l = tt
hello_fields-Negotiated os config (a ∷ b ∷ c ∷ rest) l = hello_message-Negotiated os config a b c l

-- When client_hello has a whole HELLO message, then either it fails and no slot has another
-- connection than before, or it succeeds and exactly one slot, which had no connection with a
-- positive descriptor, has the waiting one, while the other slots are as before. In both cases the
-- waiting slot is free again.
pub client_hello-Negotiated :
    (os : Os) (config : Config) (l : Lobby)
    → is_short l.waiter.bytes_available ≡ false
    → Negotiated l.clients l.waiter.fd (client_hello os config l)
unfolding client_hello
client_hello-Negotiated os config l h =
    rw h (hello_fields-Negotiated os config l.waiter.input_buffer l)
