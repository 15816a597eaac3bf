-- ===== src/Osc/Translate/Misread.antt =====
-- What server/input-server.c makes of an event that osc/osc-xlater.c sends.
use network_gamepads.Base.{ℕ, ◌≡◌, refl, List, ◌∷◌, ◌++◌, arith, length}
use network_gamepads.Os.{Os}
use network_gamepads.Protocol.{message_data}
use network_gamepads.Server.State.{Session}
use network_gamepads.Server.Handlers.{handle_data}
use network_gamepads.Osc.Translate.{input_event}

-- What handle_data does with an event of osc_msg_xlate depends on the time that was never set, and
-- not on the type, the code and the value of the event, nor on what comes behind it.
pub handle_data-input_event :
    (os : Os) (time rest rest' : List ℕ) (type code value type' code' value' : ℕ) (s : Session)
    → length time ≡ 16
    → handle_data os (message_data ∷ (input_event time type code value ++ rest)) s
      ≡ handle_data os (message_data ∷ (input_event time type' code' value' ++ rest')) s
unfolding input_event handle_data
handle_data-input_event os (a ∷ b ∷ c ∷ d ∷ e ∷ f ∷ g ∷ i ∷ more) rest rest' type code value type'
      code' value' s h =
    refl
handle_data-input_event os _ rest rest' type code value type' code' value' s h =
    absurd (omega arith)
