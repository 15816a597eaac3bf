-- ===== src/Server/State.antt =====
-- The state of server/input-server.c: clients (server/input-server.h), the configuration, and the
-- actions out of which the handlers are built.
use network_gamepads.Base.{
  ℕ, ◌≡◌, ℤ, minus_one, Bool, List, [], ◌∷◌, Option, none, some, replicate, if◌then◌else◌,
}
use network_gamepads.Os.{Os, Trace, Call, AbsInfo}
use network_gamepads.Network.{send_message}
use network_gamepads.Protocol.{message_reserved_unconn, input_buffer_size}

-- Constants of linux/input-event-codes.h and linux/uinput.h.
abbrev pub ev_max : ℕ
ev_max = 0x1f

abbrev pub key_max : ℕ
key_max = 0x2ff

abbrev pub abs_cnt : ℕ
abs_cnt = 0x40

abbrev pub uinput_max_name_size : ℕ
uinput_max_name_size = 80

abbrev pub max_clients : ℕ
max_clients = 8

abbrev pub max_waiting_clients : ℕ
max_waiting_clients = 8

pub record EnabledEvent : Type 0 where
  pub type : ℕ
  pub code : ℕ

-- `name` is `none` for NULL, else the bytes of the block that was allocated for it. A list holds
-- enabled_events together with its length.
pub record DeviceMeta : Type 0 where
  pub name : Option (List ℕ)
  pub enabled_events : List EnabledEvent
  pub id : List ℕ
  pub absinfo : List AbsInfo

pub record GamepadClient : Type 0 where
  pub fd : ℤ
  pub ev_fd : ℤ
  pub meta : DeviceMeta
  pub status : ℕ
  pub scan_offset : ℕ
  pub input_buffer : List ℕ
  pub bytes_available : ℤ

-- `password` is the text before its terminator.
pub record Config : Type 0 where
  pub password : List ℕ
  pub whitelist : ℕ → ℕ → ℕ

abbrev zero_absinfo : AbsInfo
zero_absinfo = record { value = 0; minimum = 0; maximum = 0; fuzz = 0; flat = 0; resolution = 0 }

-- `struct device_meta empty = {0}`.
unfoldable pub empty_meta : DeviceMeta
empty_meta = record {
  name = none;
  enabled_events = [];
  id = replicate 8 0;
  absinfo = replicate 64 zero_absinfo;
}

-- init_client
unfoldable pub init_client : GamepadClient
unfolding empty_meta
init_client = record {
  fd = minus_one;
  ev_fd = minus_one;
  meta = empty_meta;
  status = message_reserved_unconn;
  scan_offset = 0;
  input_buffer = replicate input_buffer_size 0;
  bytes_available = ℤ.pos 0;
}

-- What a handler sees and changes: its client, and the calls made so far.
pub record Session : Type 0 where
  pub client : GamepadClient
  pub trace : Trace

-- `none` is undefined behaviour of C, such as a read outside of a buffer.
abbrev pub Proc : Type 0 → Type 0
Proc A = Session → Option (A × Session)

abbrev pub ret : {A : Type 0} → A → Proc A
ret a s = some (a, s)

infixl 5 ◌>>=◌ ◌>>◌
abbrev pub ◌>>=◌ : {A B : Type 0} → Proc A → (A → Proc B) → Proc B
◌>>=◌ m f s = elim (m s) [ none ↦ none | some (a, s') ↦ f a s' ]

abbrev pub ◌>>◌ : {B : Type 0} → Proc (Unit {0}) → Proc B → Proc B
m >> k = m >>= λ _. k

-- The branch of a statement: only the one taken runs.
infix 1 when◌then◌else◌
abbrev pub when◌then◌else◌ : {A : Type 0} → Bool → Proc A → Proc A → Proc A
when◌then◌else◌ b m k s = if b then m s else k s

abbrev pub client : Proc GamepadClient
client s = some (s.client, s)

abbrev pub modify : (GamepadClient → GamepadClient) → Proc (Unit {0})
modify f s = some (tt, record s { client = f s.client })

-- A value that a read may fail to give.
abbrev pub lift : {A : Type 0} → Option A → Proc A
lift none s = none
lift (some a) s = some (a, s)

-- A call of the system with its integer result.
abbrev pub sys : Os → Call → Proc ℤ
sys os call s = some (os.result s.trace call, record s { trace = call ∷ s.trace })

abbrev pub send_reply_message : Os → List ℕ → Proc Bool
send_reply_message os object s =
    let (sent, t) = send_message os s.client.fd object s.trace in
    some (sent, record s { trace = t })

abbrev pub set_status : ℕ → Proc (Unit {0})
set_status status = modify (λ c. record c { status = status })

abbrev pub close_fd : Os → Proc (Unit {0})
close_fd os = do c ← client; _ ← sys os (Call.close c.fd); modify (λ c. record c { fd = minus_one })

-- The connection and the buffer of the client are as before.
abbrev pub Keeps : Session → Session → Type 0
Keeps s s' =
    (s'.client.fd ≡ s.client.fd)
    × (s'.client.scan_offset ≡ s.client.scan_offset)
    × (s'.client.bytes_available ≡ s.client.bytes_available)
    × (s'.client.input_buffer ≡ s.client.input_buffer)
