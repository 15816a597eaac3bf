-- ===== src/Tests/Sockets.antt =====
-- The theorems about sockets at concrete inputs.
use network_gamepads.Base.{ℤ, ◌+◌, pos, minus_one, [], ◌∷◌, some, ◌==◌, if◌then◌else◌}
use network_gamepads.Os.{Os, Call}
use network_gamepads.Network.Connecting.{tcp_connect, tcp_listener, udp_listener}
use network_gamepads.Network.Connecting.Sockets.{Opens, sockets-Opens}
use network_gamepads.Tests.System.{answer, friendly}

-- The first address refuses a connection.
abbrev choosy_answer : Call → ℤ
choosy_answer (Call.connect fd a) = if a == 1 then minus_one else pos 0
choosy_answer (Call.socket a) = pos (a + 4)
choosy_answer c = answer c

abbrev choosy : Os
choosy = record friendly { result = λ t c. choosy_answer c }

sockets-Opens_example :
    Opens choosy [] (tcp_connect choosy (some (1 ∷ 2 ∷ [])) [])
    × Opens choosy [] (tcp_listener choosy (some (1 ∷ 2 ∷ [])) [])
    × Opens choosy [] (udp_listener choosy (some (1 ∷ 2 ∷ [])) [])
sockets-Opens_example = sockets-Opens choosy (some (1 ∷ 2 ∷ [])) []
