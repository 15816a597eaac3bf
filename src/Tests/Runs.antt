-- ===== src/Tests/Runs.antt =====
-- The theorems about whole runs at concrete inputs.
use network_gamepads.Base.{
  ◌≡◌, refl, pos, [], ◌∷◌, some, true, arith, replicate, ℤ, Bool, is_neg, not,
}
use network_gamepads.Os.{Call, InputEvent}
use network_gamepads.Protocol.{message_success, message_password_required}
use network_gamepads.Server.Data.{client_data}
use network_gamepads.Server.Data.Loop.{Returns}
use network_gamepads.Server.Access.{Reach}
use network_gamepads.Server.Access.Refinement.{view, client_data-Reach}
use network_gamepads.Server.Rounds.{run, start}
use network_gamepads.Server.Rounds.Allowed.{Guards, run-IsAllowed}
use network_gamepads.Client.{data_message}
use network_gamepads.Client.Delivery.{after, deliver, messages, client_data-messages}
use network_gamepads.Tests.System.{friendly, two_letters, holding}

-- A key is pressed and released.
abbrev press : InputEvent
press = record { type = 1; code = 30; value = 1 }

abbrev release : InputEvent
release = record { type = 1; code = 30; value = 0 }

client_data-messages_example :
    client_data friendly two_letters 0 (holding message_success (messages (press ∷ release ∷ [])))
    ≡ some (
      true,
      after
          (holding message_success (messages (press ∷ release ∷ [])))
          18
          (pos 0)
          (deliver (holding message_success []).client.ev_fd (press ∷ release ∷ []) []),
    )
unfolding data_message
client_data-messages_example =
    client_data-messages friendly two_letters 0 (press ∷ release ∷ []) (replicate 1006 0)
      (holding message_success (messages (press ∷ release ∷ []))) (λ t e. refl) (omega arith) refl
      refl refl

client_data-Reach_example :
    Returns
      (λ b s'. Reach (view (holding message_password_required (4 ∷ 1 ∷ 0x61 ∷ []))) (view s'))
      (client_data friendly two_letters 0 (holding message_password_required (4 ∷ 1 ∷ 0x61 ∷ [])))
client_data-Reach_example =
    client_data-Reach friendly two_letters 0 (holding message_password_required (4 ∷ 1 ∷ 0x61 ∷ []))

-- Two rounds in which all descriptors that are open are ready.
abbrev open_ones : ℤ → Bool
open_ones fd = not (is_neg fd)

run-IsAllowed_example : Guards friendly two_letters (
    run friendly two_letters
      (pos 3)
      (open_ones ∷ open_ones ∷ [])
      (record start { trace = Call.listen (pos 3) ∷ [] }))
run-IsAllowed_example =
    run-IsAllowed friendly two_letters (pos 3) (open_ones ∷ open_ones ∷ [])
      (Call.listen (pos 3) ∷ [])
