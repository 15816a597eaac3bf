-- ===== src/Os.antt =====
-- The system interface that the programs call: sockets, the uinput device node, input devices and
-- the heap.
-- The system is a parameter `Os`: what it answers may depend on every call made so far.
use network_gamepads.Base.{ℕ, ℤ, List, Option}

-- struct input_event without its time stamp, which the server leaves zero.
pub record InputEvent : Type 0 where
  pub type : ℕ
  pub code : ℕ
  pub value : ℕ

-- struct input_absinfo: six 32-bit words.
pub record AbsInfo : Type 0 where
  pub value : ℕ
  pub minimum : ℕ
  pub maximum : ℕ
  pub fuzz : ℕ
  pub flat : ℕ
  pub resolution : ℕ

-- The uinput requests, UI_*.
pub data Request : Type 0 where
  get_version : Request
  set_evbit set_keybit set_relbit set_absbit set_mscbit : ℕ → Request
  dev_setup : List ℕ → List ℕ → Request
  abs_setup : ℕ → AbsInfo → Request
  dev_create dev_destroy : Request

-- The options that the programs set to 1.
pub data SocketOption : Type 0 where
  v6_only reuse_address broadcast : SocketOption

-- `send fd object offset len` reads `len` bytes of `object` from `offset` on. `socket`,
-- `connect` and `bind` take an address of getaddrinfo, by a number.
pub data Call : Type 0 where
  send : ℤ → List ℕ → ℕ → ℕ → Call
  recv : ℤ → ℕ → Call
  accept : ℤ → Call
  socket : ℕ → Call
  connect bind : ℤ → ℕ → Call
  listen : ℤ → Call
  set_option : ℤ → SocketOption → Call
  close : ℤ → Call
  open_uinput : Call
  ioctl : ℤ → Request → Call
  write_event : ℤ → InputEvent → Call
  write_user_dev : ℤ → List ℕ → List ℕ → List AbsInfo → Call
  alloc : ℕ → Call
  open_device sleep sigaction unblock_stdin : Call
  grab device_name : ℤ → Call

-- send(2) with a nonzero length fails or takes at least one byte: `accepted k` is k + 1 bytes.
pub data SendReply : Type 0 where
  failed : SendReply
  accepted : ℕ → SendReply

-- The calls made so far, the newest first.
abbrev pub Trace : Type 0
Trace = List Call

-- `recv_reply` is `none` for -1, and the empty list for 0, the end of the stream.
pub record Os : Type 0 where
  pub send_reply : Trace → Call → SendReply
  pub recv_reply : Trace → Call → Option (List ℕ)
  pub result : Trace → Call → ℤ
  pub version : Trace → ℕ
