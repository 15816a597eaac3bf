-- ===== src/Tests/Sessions.antt =====
-- The theorems about sending and about a client's session at concrete inputs.
use network_gamepads.Base.{
  ℕ, ◌≡◌, refl, ℤ, pos, is_neg, true, List, [], ◌∷◌, ◌++◌, none, some, arith, length, zero, suc,
  ◌<◌, ◌≤◌, ◌↔◌, ◌⊎◌, All, All-append, All-replicate, replicate,
}
use network_gamepads.Os.{Call, Trace}
use network_gamepads.Protocol.{
  message_password, message_password_required, message_invalid_password, message_setup_required,
}
use network_gamepads.Network.{send_message}
use network_gamepads.Network.Replies.{AreBytes, IsBounded}
use network_gamepads.Network.Acknowledged.{Acknowledges, send_message-Acknowledges}
use network_gamepads.Network.Sending.{ReadsOutside, send_message_overrun, written}
use network_gamepads.Server.State.{Session}
use network_gamepads.Server.Handlers.{handle_password}
use network_gamepads.Server.Handlers.Password.{IsAdmitted, Agrees, handle_password-admits}
use network_gamepads.Server.Handlers.Prefix.{prefix-IsAdmitted}
use network_gamepads.Server.Data.{client_data, client_data_round, recv_data}
use network_gamepads.Server.Data.Loop.{Returns, EndsInTime, client_data-EndsInTime}
use network_gamepads.Server.Data.Lockout.{IsLocked, client_data-lockout}
use network_gamepads.Server.Data.Refill.{Refills, IsBuffered, recv_data-Refills}
use network_gamepads.Server.Data.Framing.{Advances, client_data_round-Advances}
use network_gamepads.Server.Data.LoneHeader.{lone_header}
use network_gamepads.Server.Data.Whitelist.{Allowed, client_data-AllAllowed}
use network_gamepads.Tests.System.{quit_message, friendly, slow, two_letters, holding}

abbrev greeting_bytes : List ℕ
greeting_bytes = 0xF0 ∷ 1 ∷ []

send_message-Acknowledges_example :
    Acknowledges slow (pos 5) greeting_bytes [] (send_message slow (pos 5) greeting_bytes [])
send_message-Acknowledges_example = send_message-Acknowledges slow (pos 5) greeting_bytes []

send_message_overrun_example :
    (newer : Trace) × (second : Call) × ((send_message slow (pos 5) greeting_bytes []).1
      ≡ newer ++ second ∷ Call.send (pos 5) greeting_bytes 0 2 ∷ [])
    × ReadsOutside second
send_message_overrun_example =
    send_message_overrun slow (pos 5) greeting_bytes [] 0 (omega arith) refl

-- A PASSWORD message with the password "ab" and its terminator.
abbrev login : List ℕ
login = message_password ∷ 3 ∷ 0x61 ∷ 0x62 ∷ 0 ∷ []

abbrev asked : Session
asked = holding message_password_required login

client_data-EndsInTime_example :
    EndsInTime friendly two_letters 0 asked (client_data friendly two_letters 0 asked)
client_data-EndsInTime_example = client_data-EndsInTime friendly two_letters 0 asked

client_data-lockout_example :
    Returns
      (λ b s'. IsLocked s'.client.status × (written s'.trace ≡ []))
      (client_data friendly two_letters 0 (holding message_invalid_password login))
client_data-lockout_example =
    client_data-lockout friendly two_letters 0 (holding message_invalid_password login)
      (omega arith)

client_data-AllAllowed_example :
    Returns
      (λ b s'. All (Allowed two_letters) s'.client.meta.enabled_events)
      (client_data friendly two_letters 0
        (holding message_setup_required (6 ∷ 1 ∷ 0 ∷ 30 ∷ 0 ∷ [])))
client_data-AllAllowed_example =
    client_data-AllAllowed friendly two_letters 0
      (holding message_setup_required (6 ∷ 1 ∷ 0 ∷ 30 ∷ 0 ∷ [])) tt

asked-IsBuffered : IsBuffered asked.client
asked-IsBuffered = record { size = refl; counted = refl; within = omega arith }

asked-AreBytes : AreBytes asked.client.input_buffer
asked-AreBytes =
    All-append (λ b. b < 256) login (replicate 1019 0) (omega arith)
      (All-replicate (λ b. b < 256) 1019 0 (omega arith))

quit_message-bounded :
    (fd : ℤ) (n : ℕ) (bytes : List ℕ)
    → quit_message (Call.recv fd n) ≡ some bytes
    → length bytes ≤ n
quit_message-bounded fd zero bytes e = ground arith
quit_message-bounded fd (suc n) bytes e = ground arith

pub friendly-IsBounded : IsBounded friendly
friendly-IsBounded t fd n bytes e = quit_message-bounded fd n bytes e

client_data_round-Advances_example : Advances asked (client_data_round friendly two_letters 0 asked)
client_data_round-Advances_example =
    client_data_round-Advances friendly two_letters 0 asked asked-IsBuffered asked-AreBytes
      (omega arith)

recv_data-Refills_example :
    Refills
      (some (0xF9 ∷ []))
      (Call.recv (pos 5) 1019 ∷ [])
      login
      (pos 5)
      (recv_data friendly asked)
recv_data-Refills_example = recv_data-Refills friendly asked friendly-IsBounded asked-IsBuffered

handle_password-admits_example :
    (r : ℤ) × (s' : Session) × (handle_password friendly two_letters login asked ≡ some (r, s'))
    × (IsAdmitted s' ↔ Agrees two_letters login 3)
    × (IsAdmitted s' ⊎ (s'.client.status ≡ message_invalid_password))
    × (s'.trace ≡ (send_message friendly (pos 5) (s'.client.status ∷ []) []).1)
handle_password-admits_example =
    handle_password-admits friendly two_letters login 3 asked (omega arith) refl refl (omega arith)

-- A message with an empty password.
prefix-IsAdmitted_example :
    (r : ℤ) × (s' : Session) × (handle_password friendly two_letters
        (message_password ∷ 0 ∷ [])
        asked
      ≡ some (r, s'))
    × IsAdmitted s'
prefix-IsAdmitted_example =
    prefix-IsAdmitted friendly two_letters [] (0x61 ∷ 0x62 ∷ []) [] asked (omega arith) refl refl

abbrev one_byte : Session
one_byte = holding message_setup_required (message_password ∷ [])

lone_header_example :
    (s' : Session) × (client_data friendly two_letters 0 one_byte ≡ some (true, s'))
    × (is_neg s'.client.bytes_available ≡ true)
    × (recv_data friendly s' ≡ none)
lone_header_example = lone_header friendly two_letters 0 0 one_byte (omega arith) refl refl refl
