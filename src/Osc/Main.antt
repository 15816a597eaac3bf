-- ===== src/Osc/Main.antt =====
-- main of osc/osc-xlater.c. The result is `none` after undefined behaviour, and `some none` where the
-- fuel of configure_mappings ends.
use network_gamepads.Base.{
  ℕ, ℤ, pos, is_neg, Bool, List, [], ◌∷◌, Option, none, some, text, if◌then◌else◌,
}
use network_gamepads.Os.{Os, Trace, Call}
use network_gamepads.Settings.{World, getenv_or, default_host, default_port, default_password}
use network_gamepads.Network.Connecting.{tcp_connect, udp_listener}
use network_gamepads.Osc.{Floats, OscControl, gamepad_controls}
use network_gamepads.Osc.Translate.{osc_msg_xlate}
use network_gamepads.Osc.Negotiate.{input_negotiate}
use network_gamepads.Osc.Mapping.{Happening, configure}

-- What the program meets when it runs: for configure_mappings whether realloc succeeds, what
-- happens and the memory of the buffer, and for each round of the last loop the memory of the buffer
-- of osc_msg_xlate; at the end of the rounds a signal requests the shutdown.
pub record Conditions : Type 0 where
  pub realloc : ℕ → Bool
  pub happenings : List Happening
  pub buffer : List ℕ
  pub rounds : List (List ℕ)

module _ {F : Type 0} (fl : Floats F) (os : Os) (time : List ℕ) where
  -- while(!shutdown_requested) around osc_msg_xlate.
  unfoldable pub translate : ℤ → ℤ → List (OscControl F) → List (List ℕ) → Trace → Option Trace
  translate osc_fd host_fd controls [] t = some t
  translate osc_fd host_fd controls (mem ∷ rounds) t =
      elim (osc_msg_xlate fl host_fd time os osc_fd controls mem t) [
        | none ↦ none
        | some (status, t') ↦
            let rest = translate osc_fd host_fd controls rounds t' in
            if is_neg status then some t' else rest
      ]

  -- main from the configuration on.
  unfoldable pub stream : ℕ → Conditions → ℤ → ℤ → Trace → Option (Option (ℤ × Trace))
  unfolding translate
  stream fuel run osc_fd host_fd t =
      elim (configure fl run.realloc fuel gamepad_controls run.happenings run.buffer []) [
        | none ↦ none
        | some none ↦ some none
        | some (some (status, controls)) ↦
            if is_neg status
            then some (some (pos 1, t))
            else elim (translate osc_fd host_fd controls run.rounds t) [
              | none ↦ none
              | some t' ↦ some (some (pos 0, Call.close host_fd ∷ Call.close osc_fd ∷ t'))
            ]
      ]

  -- main from the connection on.
  unfoldable pub bridge : World → ℕ → Conditions → ℤ → ℤ → Trace → Option (Option (ℤ × Trace))
  unfolding stream
  bridge world fuel run osc_fd host_fd t =
      elim (input_negotiate os host_fd
        (getenv_or world (text "SERVER_NAME") (text "OSC Gamepad Bridge"))
        (getenv_or world (text "SERVER_PW") default_password) t) [
          | none ↦ none
          | some (status, t') ↦
              if is_neg status then some (some (pos 1, t')) else stream fuel run osc_fd host_fd t'
        ]

  -- fcntl with F_GETFL and F_SETFL is the call `unblock_stdin`.
  unfoldable pub main : World → ℕ → Conditions → Option (Option (ℤ × Trace))
  unfolding bridge
  main world fuel run =
      let ready : Trace = Call.unblock_stdin ∷ [] in
      let udp : ℤ × Trace =
        udp_listener os
          (world.resolve (getenv_or world (text "OSC_HOST") (text "::"))
            (getenv_or world (text "OSC_PORT") (text "8000")))
          ready in
      let tcp : ℤ × Trace =
        tcp_connect os
          (world.resolve (getenv_or world (text "SERVER_HOST") default_host)
            (getenv_or world (text "SERVER_PORT") default_port))
          udp.1 in
      if is_neg (os.result [] Call.unblock_stdin)
      then some (some (pos 1, ready))
      else if is_neg udp.0
      then some (some (pos 1, udp.1))
      else if is_neg tcp.0
      then some (some (pos 1, tcp.1))
      else bridge world fuel run udp.0 tcp.0 tcp.1
