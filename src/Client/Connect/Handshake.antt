-- ===== src/Client/Connect/Handshake.antt =====
-- What init_connect of client/input-client.c ends with.
use network_gamepads.Base.{
  ℕ, ◌<◌, ◌≡◌, refl, subst, inl, inr, ℤ, pos, negsuc, Bool, true, false, List, [], ◌∷◌, Option,
  none, some, length, arith, Bool-cases, ◌==◌, Option-cases,
}
use network_gamepads.Os.{Os, Trace}
use network_gamepads.Protocol.{input_buffer_size, message_success, message_hello, protocol_version}
use network_gamepads.Network.{send_message}
use network_gamepads.Client.{password_message}
use network_gamepads.Network.Replies.{IsBounded, GivesBytes, AreBytes}
use network_gamepads.Network.Receiving.{recv_message}
use network_gamepads.Network.Receiving.Bounds.{Receives, recv_message-Receives}
use network_gamepads.Client.Connect.{
  Device, ClientConfig, receive_after, exchange_password, authenticate, set_up, next, conclude,
  init_connect, setup_device,
}

abbrev pub IsBuffer : List ℕ → Type 0
IsBuffer buf = (length buf ≡ input_buffer_size) × AreBytes buf

-- An error, or a whole buffer.
abbrev Proceeds : Option (Option (List ℕ) × Trace) → Type 0
Proceeds none = ⊥
Proceeds (some (none, t)) = Unit
Proceeds (some (some buf, t)) = IsBuffer buf

-- A failure leaves the configuration, and a success stores a slot of one byte in it.
abbrev pub Decides : ClientConfig → Option (Bool × ClientConfig × Trace) → Type 0
Decides config none = ⊥
Decides config (some (false, config', t)) = config' ≡ config
Decides config (some (true, config', t)) =
    (slot : ℕ) × (slot < 256) × (config' ≡ record config { slot = slot })

module _ (os : Os) (fd : ℤ) (device : Device) where
  receive_after-Proceeds :
      (buf : List ℕ) (sent : Bool × Trace)
      → IsBounded os
      → GivesBytes os
      → IsBuffer buf
      → Proceeds (receive_after os fd device buf sent)
  unfolding receive_after
  receive_after-Proceeds buf (false, t) bound gives h = tt
  receive_after-Proceeds buf (true, t) bound gives h =
      let received : Receives 1024 (recv_message os fd buf [] t) =
        recv_message-Receives os fd 512 buf t bound gives h.1 h.0 (omega arith) in
      elim (Option-cases (recv_message os fd buf [] t)) [
        | inl e ↦ ground arith
        | inr ((negsuc k, buf', t'), e) ↦ ground arith
        | inr ((pos n, buf', t'), e) ↦
            let fit : Receives 1024 (some (pos n, buf', t')) = subst (Receives 1024) e received in
            ground (arith, fit)
      ]

  exchange_password-Proceeds :
      (password buf : List ℕ) (t : Trace)
      → IsBounded os
      → GivesBytes os
      → IsBuffer buf
      → Proceeds (exchange_password os fd device password buf t)
  unfolding exchange_password
  exchange_password-Proceeds password buf t bound gives h =
      elim (Option-cases (password_message password)) [
        | inl e ↦ ground arith
        | inr (msg, e) ↦
            ground (arith, receive_after-Proceeds buf (send_message os fd msg t) bound gives h)
      ]

  authenticate-Proceeds :
      (password buf : List ℕ) (t : Trace)
      → IsBounded os
      → GivesBytes os
      → IsBuffer buf
      → Proceeds (authenticate os fd device password buf t)
  unfolding authenticate
  authenticate-Proceeds password buf t bound gives h =
      ground (arith, exchange_password-Proceeds password buf t bound gives h)

  set_up-Proceeds :
      (dev_name : Option (List ℕ)) (buf : List ℕ) (t : Trace)
      → IsBounded os
      → GivesBytes os
      → IsBuffer buf
      → Proceeds (set_up os fd device dev_name buf t)
  unfolding set_up
  set_up-Proceeds dev_name buf t bound gives h =
      ground
        (arith, receive_after-Proceeds buf (setup_device os fd device dev_name t) bound gives h)

  next-Proceeds :
      (p : Option (Option (List ℕ) × Trace)) (f : List ℕ → Trace → Option (Option (List ℕ) × Trace))
      → Proceeds p
      → ((buf : List ℕ) (t : Trace) → IsBuffer buf → Proceeds (f buf t))
      → Proceeds (next os fd device p f)
  unfolding next
  next-Proceeds (some (none, t)) f h k = tt
  next-Proceeds (some (some buf, t)) f h k = k buf t h
  next-Proceeds none f h k = h

  conclude-Decides :
      (config : ClientConfig) (p : Option (Option (List ℕ) × Trace))
      → Proceeds p
      → Decides config (conclude os fd device config p)
  unfolding conclude
  conclude-Decides config none h = h
  conclude-Decides config (some (none, t)) h = refl
  conclude-Decides config (some (some [], t)) h = absurd (omega arith)
  conclude-Decides config (some (some (x ∷ []), t)) h = absurd (omega arith)
  conclude-Decides config (some (some (kind ∷ slot ∷ rest), t)) h =
      elim (Bool-cases (kind == message_success)) [
        | inl e ↦ ground (arith, success slot h.1.1.0)
        | inr e ↦ ground arith
      ]
    where
      success :
          (slot : ℕ) → slot < 256 → Decides config (some (true, record config { slot = slot }, t))
      success slot lt = (slot, lt, refl)

  -- init_connect always ends and stays inside of its buffer, where recv(2) gives bytes, and no more
  -- than it is asked for. When it fails the configuration is as before, and when it succeeds only the
  -- slot has changed, to a number that a byte has room for.
  pub init_connect-Decides :
      (buf : List ℕ) (config : ClientConfig) (t : Trace)
      → IsBounded os
      → GivesBytes os
      → IsBuffer buf
      → Decides config (init_connect os fd device buf config t)
  unfolding init_connect
  init_connect-Decides buf config t bound gives h =
      let hello = send_message os fd (message_hello ∷ protocol_version ∷ config.slot ∷ []) t in
      conclude-Decides config
        (next os fd device
          (next os fd device (receive_after os fd device buf hello)
            (authenticate os fd device config.password))
          (set_up os fd device config.dev_name))
        (next-Proceeds
          (next os fd device (receive_after os fd device buf hello)
            (authenticate os fd device config.password))
          (set_up os fd device config.dev_name)
          (next-Proceeds (receive_after os fd device buf hello)
            (authenticate os fd device config.password)
            (receive_after-Proceeds buf hello bound gives h)
            (λ buf' t' h'. authenticate-Proceeds config.password buf' t' bound gives h'))
          (λ buf' t' h'. set_up-Proceeds config.dev_name buf' t' bound gives h'))
