-- ===== src/Osc/Translate/Received.antt =====
-- osc_msg_xlate of osc/osc-xlater.c on a message as OSC lays it out.
use network_gamepads.Base.{
  ℕ, ◌+◌, ◌≤◌, ◌≡◌, ap, ◌∙◌, ℤ, pos, List, ◌∷◌, ◌++◌, some, All, length, drop, take,
}
use network_gamepads.Os.{Os, Trace, Call}
use network_gamepads.Protocol.{input_buffer_size}
use network_gamepads.Osc.{Floats, OscControl}
use network_gamepads.Osc.Parse.{comma, strlen}
use network_gamepads.Osc.Parse.Encoded.{
  NoNul, pad, encode, take-pad, length-encode, drop-encode, strlen-pad, encode_memory,
  osc_parse-encode,
}
use network_gamepads.Osc.Parse.Arguments.{Word, bytes_of}
use network_gamepads.Osc.Translate.{xlate_parsed, osc_msg_xlate}
use network_gamepads.Osc.Translate.Events.{
  strcmp_refl, report, IsOther, send_control-report, find_control-first, osc_msg_xlate-parsed,
  xlate_parsed-found,
}

module _ {F : Type 0} (fl : Floats F) (os : Os) (osc_fd fd : ℤ) (time mem : List ℕ) where
  -- If a message comes whose path is that of a control and of none before it in the table, and which
  -- has an argument or more for each channel of the control, osc_msg_xlate sends for each channel the
  -- byte MESSAGE_DATA and then the 24 bytes of a struct input_event: 16 bytes of a time, which is
  -- never set, the type of the control, the code of the channel and the rounded value of the
  -- argument, in the order of the channels. It then sends such an event of zeros, for EV_SYN, makes no
  -- other call, and returns 0.
  pub osc_msg_xlate-report :
      (before after : List (OscControl F)) (control : OscControl F) (path types : List ℕ)
      → (ws : List Word) (t : Trace) → length time ≡ 16
      → os.recv_reply t (Call.recv osc_fd input_buffer_size)
        ≡ some (encode path types (bytes_of ws))
      → NoNul path
      → NoNul types
      → All (IsOther path) before
      → control.path ≡ some path
      → control.num_channels ≡ length control.channels
      → control.num_channels ≤ length ws
      → osc_msg_xlate fl fd time os osc_fd (before ++ control ∷ after) mem t
        ≡ some (pos 0, report fl fd time control ws (Call.recv osc_fd input_buffer_size ∷ t))
  osc_msg_xlate-report before after control path types ws t unset came h h' others own num le =
      let bytes : List ℕ = encode path types (bytes_of ws) in
      let stale : List ℕ = drop (length bytes) mem in
      let t' : Trace = Call.recv osc_fd input_buffer_size ∷ t in
      osc_msg_xlate-parsed fl fd time os osc_fd (before ++ control ∷ after) mem bytes t came
        (length-encode path types (bytes_of ws))
      ∙ ap (λ r. xlate_parsed fl fd time (before ++ control ∷ after) (bytes ++ stale) r t')
          (osc_parse-encode path types (bytes_of ws) stale h h')
      ∙ xlate_parsed-found fl fd time (before ++ control ∷ after) (bytes ++ stale) path
          (bytes_of ws ++ stale) (length types) (length (pad path) + length (pad (comma ∷ types)))
          t' (report fl fd time control ws t')
          (ap strlen (encode_memory path types (bytes_of ws) stale)
            ∙ strlen-pad path (pad (comma ∷ types) ++ (bytes_of ws ++ stale)) h)
          (ap (take (length path)) (encode_memory path types (bytes_of ws) stale)
            ∙ take-pad path (pad (comma ∷ types) ++ (bytes_of ws ++ stale)))
          (drop-encode path types (bytes_of ws) stale)
          (find_control-first fl fd time path (bytes_of ws ++ stale) path before after control t'
              others own (strcmp_refl path)
            ∙ send_control-report fl fd time control stale ws t' unset num le)
