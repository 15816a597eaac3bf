-- ===== src/Osc/Translate/Events.antt =====
-- The events that osc_msg_xlate of osc/osc-xlater.c sends for a message.
use network_gamepads.Base.{
  ℕ, suc, ◌*◌, ◌/◌, ◌%◌, ◌≢◌, length-append, Bool-cases, ◌<◌, ◌≤◌, ◌≡◌, refl, sym, ap, ◌∙◌, ℤ, pos,
  true, false, List, [], ◌∷◌, ◌++◌, none, some, arith, All, length, drop, take, get_elem?-drop,
  drop-drop, inl, inr, Option-cases,
}
use network_gamepads.Words.{htole16, htole32}
use network_gamepads.Os.{Os, Trace, Call}
use network_gamepads.Protocol.{input_buffer_size}
use network_gamepads.Args.{strcmp}
use network_gamepads.Osc.{Floats, OscChannel, OscControl}
use network_gamepads.Osc.Parse.Arguments.{Word, bytes_of, value_of, osc_param_float-value_of}
use network_gamepads.Osc.Parse.{osc_parse, strlen}
use network_gamepads.Osc.Translate.{
  input_event, send_event, send_channels, send_control, find_control, xlate_parsed, osc_msg_xlate,
}

-- The path of the control is another one.
abbrev pub IsOther : {F : Type 0} → List ℕ → OscControl F → Type 0
IsOther path control = elim control.path [ none ↦ ⊥ | some own ↦ own ≢ path ]

pub strcmp_refl : (s : List ℕ) → strcmp s s ≡ true
unfolding strcmp
strcmp_refl [] = refl
strcmp_refl (x ∷ xs) = ground (arith, strcmp_refl xs)

strcmp_eq : (s u : List ℕ) → strcmp s u ≡ true → s ≡ u
unfolding strcmp
strcmp_eq [] [] e = refl
strcmp_eq [] (y ∷ ys) e = cc
strcmp_eq (x ∷ xs) [] e = cc
strcmp_eq (x ∷ xs) (y ∷ ys) e = ground (arith, strcmp_eq xs ys)

strcmp_ne : (s u : List ℕ) → s ≢ u → strcmp s u ≡ false
strcmp_ne s u h = elim (Bool-cases (strcmp s u)) [
  | inl e ↦ absurd (h (strcmp_eq s u e))
  | inr e ↦ e
]

-- The two bytes of a number, and the four, the lowest first.
abbrev low_first2 : ℕ → List ℕ → List ℕ
low_first2 n rest = n % 256 ∷ (n / 256) % 256 ∷ rest

abbrev low_first4 : ℕ → List ℕ
low_first4 n = n % 256 ∷ (n / 256) % 256 ∷ (n / 65536) % 256 ∷ (n / 65536 / 256) % 256 ∷ []

-- The two calls that send an event: the byte 0x10, and the 24 bytes of a struct input_event.
abbrev pub event_calls : ℤ → List ℕ → ℕ → ℕ → ℕ → Trace → Trace
event_calls fd time type code value t =
    Call.send fd (time ++ low_first2 type (low_first2 code (low_first4 value))) 0 24
    ∷ Call.send fd (0x10 ∷ []) 0 1
    ∷ t

send_event-event_calls :
    (fd : ℤ) (time : List ℕ) (type code value : ℕ) (t : Trace)
    → length time ≡ 16
    → send_event fd time type code value t ≡ event_calls fd time type code value t
unfolding send_event input_event htole16 htole32
send_event-event_calls fd time type code value t unset =
    let body : List ℕ = low_first2 type (low_first2 code (low_first4 value)) in
    let whole : length (time ++ body) ≡ 24 = length-append time body ∙ omega arith in
    ap (λ n. Call.send fd (time ++ body) 0 n ∷ Call.send fd (0x10 ∷ []) 0 1 ∷ t) whole

module _ {F : Type 0} (fl : Floats F) (fd : ℤ) (time : List ℕ) where
  -- The calls that send an event for each channel, with the value of its argument.
  abbrev pub emit : ℕ → List (OscChannel F) → List Word → Trace → Trace
  emit type [] ws t = t
  emit type (ch ∷ cs) [] t = t
  emit type (ch ∷ cs) (w ∷ ws) t =
      emit type cs ws (event_calls fd time type ch.code (fl.rounded (value_of fl w)) t)

  send_channels-emit :
      (control : OscControl F) (args rest : List ℕ) (cs : List (OscChannel F)) (ws : List Word)
      → (c : ℕ) (t : Trace) → length time ≡ 16
      → drop c control.channels ≡ cs
      → length cs ≤ length ws
      → drop (c * 4) args ≡ bytes_of ws ++ rest
      → send_channels fl fd time control args c (length cs) t ≡ some (emit control.type cs ws t)
  unfolding send_channels
  send_channels-emit control args rest [] ws c t unset chs le words = refl
  send_channels-emit control args rest (ch ∷ cs) [] c t unset chs le words = absurd (omega arith)
  send_channels-emit control args rest (ch ∷ cs) (w ∷ ws) c t unset chs le words =
      let (x, y, z, v) = w in
      ground (
        arith,
        get_elem?-drop c 0 c control.channels (omega arith),
        osc_param_float-value_of fl args rest c w ws words,
        send_event-event_calls fd time control.type ch.code (fl.rounded (value_of fl w)) t unset,
        send_channels-emit control args rest cs ws (suc c)
            (event_calls fd time control.type ch.code (fl.rounded (value_of fl w)) t) unset
            (sym (drop-drop 1 c (suc c) control.channels (omega arith)) ∙ ap (drop 1) chs)
            (omega arith)
            (sym (drop-drop 4 (c * 4) (suc c * 4) args (omega arith)) ∙ ap (drop 4) words),
      )

  -- The events of a control, and the one of EV_SYN behind them.
  abbrev pub report : OscControl F → List Word → Trace → Trace
  report control ws t = event_calls fd time 0 0 0 (emit control.type control.channels ws t)

  pub send_control-report :
      (control : OscControl F) (rest : List ℕ) (ws : List Word) (t : Trace)
      → length time ≡ 16
      → control.num_channels ≡ length control.channels
      → control.num_channels ≤ length ws
      → send_control fl fd time control (bytes_of ws ++ rest) t ≡ some (report control ws t)
  unfolding send_control
  send_control-report control rest ws t unset num le = ground (
    arith,
    send_event-event_calls fd time 0 0 0 (emit control.type control.channels ws t) unset,
    send_channels-emit control (bytes_of ws ++ rest) rest control.channels ws 0 t unset refl
        (omega arith) refl,
  )

  find_control-skip :
      (path args : List ℕ) (c : OscControl F) (cs : List (OscControl F)) (t : Trace)
      → IsOther path c
      → find_control fl fd time (c ∷ cs) path args t ≡ find_control fl fd time cs path args t
  unfolding find_control
  find_control-skip path args c cs t other = elim (Option-cases c.path) [
    | inl e ↦ ground arith
    | inr (own, e) ↦ ground (arith, strcmp_ne own path)
  ]

  pub find_control-first :
      (path args own : List ℕ) (before after : List (OscControl F)) (control : OscControl F)
      (t : Trace)
      → All (IsOther path) before
      → control.path ≡ some own
      → strcmp own path ≡ true
      → find_control fl fd time (before ++ control ∷ after) path args t
        ≡ send_control fl fd time control args t
  unfolding find_control
  find_control-first path args own [] after control t others e same = ground arith
  find_control-first path args own (c ∷ cs) after control t others e same =
      find_control-skip path args c (cs ++ control ∷ after) t others.0
      ∙ find_control-first path args own cs after control t others.1 e same

  pub osc_msg_xlate-parsed :
      (os : Os) (osc_fd : ℤ) (controls : List (OscControl F)) (mem bytes : List ℕ) (t : Trace)
      → os.recv_reply t (Call.recv osc_fd input_buffer_size) ≡ some bytes
      → 0 < length bytes
      → osc_msg_xlate fl fd time os osc_fd controls mem t
        ≡ xlate_parsed fl fd time controls
            (bytes ++ drop (length bytes) mem)
            (osc_parse (bytes ++ drop (length bytes) mem) (length bytes))
            (Call.recv osc_fd input_buffer_size ∷ t)
  unfolding osc_msg_xlate
  osc_msg_xlate-parsed os osc_fd controls mem [] t came more = absurd (omega arith)
  osc_msg_xlate-parsed os osc_fd controls mem (b ∷ bs) t came more = ground arith

  pub xlate_parsed-found :
      (controls : List (OscControl F)) (mem path args : List ℕ) (num p : ℕ) (t t' : Trace)
      → strlen mem ≡ some (length path)
      → take (length path) mem ≡ path
      → drop p mem ≡ args
      → find_control fl fd time controls path args t ≡ some t'
      → xlate_parsed fl fd time controls mem (some (some (record { num_args = num; args = p }))) t
        ≡ some (pos 0, t')
  unfolding xlate_parsed
  xlate_parsed-found controls mem path args num p t t' len text behind found = ground arith
