-- ===== src/Tests/System.antt =====
-- A system and a client for the examples: every call succeeds, and a send takes all that is asked for.
use network_gamepads.Base.{
  ℕ, ◌-◌, ℤ, pos, minus_one, List, [], ◌∷◌, ◌++◌, Option, none, some, length, replicate,
}
use network_gamepads.Os.{Os, Call, SendReply}
use network_gamepads.Server.State.{Config, DeviceMeta, Session}

abbrev pub take_all : Call → SendReply
take_all (Call.send fd object offset len) = SendReply.accepted (len - 1)
take_all c = SendReply.failed

-- A system that takes one byte at a time.
abbrev pub take_one : Call → SendReply
take_one c = SendReply.accepted 0

abbrev pub answer : Call → ℤ
answer Call.open_uinput = pos 9
answer (Call.accept fd) = pos 5
answer (Call.alloc n) = pos 1
answer (Call.write_event fd e) = pos 24
answer c = pos 0

-- recv gives a QUIT message wherever there is room for a byte.
abbrev pub quit_message : Call → Option (List ℕ)
quit_message (Call.recv fd n) = elim n [ ℕ.zero ↦ some [] | ℕ.suc k ↦ some (0xF9 ∷ []) ]
quit_message c = none

abbrev pub friendly : Os
friendly = record {
  send_reply = λ t c. take_all c;
  recv_reply = λ t c. quit_message c;
  result = λ t c. answer c;
  version = λ t. 5;
}

abbrev pub slow : Os
slow = record {
  send_reply = λ t c. take_one c;
  recv_reply = λ t c. quit_message c;
  result = λ t c. answer c;
  version = λ t. 5;
}

-- The password is "ab", and every event is allowed.
abbrev pub two_letters : Config
two_letters = record { password = 0x61 ∷ 0x62 ∷ []; whitelist = λ type code. 1 }

abbrev pub no_device : DeviceMeta
no_device = record { name = none; enabled_events = []; id = []; absinfo = [] }

-- A client of the given status whose buffer begins with the given bytes, which wait.
abbrev pub holding : ℕ → List ℕ → Session
holding status bytes = record {
  client = record {
    fd = pos 5;
    ev_fd = minus_one;
    meta = no_device;
    status = status;
    scan_offset = 0;
    input_buffer = bytes ++ replicate (1024 - length bytes) 0;
    bytes_available = pos (length bytes);
  };
  trace = [];
}
