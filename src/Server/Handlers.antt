-- ===== src/Server/Handlers.antt =====
-- The message handlers of server/input-server.c, from client_close to handle_data. `msg` is the
-- memory from the message on; a handler's result is the number of bytes used, or -1.
pub mod Frame
pub mod Password
pub mod Prefix
use network_gamepads.Base.{
  ℕ, zero, suc, ◌+◌, ◌*◌, ◌%◌, ℤ, pos, minus_one, is_neg, Bool, true, false, not, ◌||◌, List, [],
  ◌∷◌, ◌++◌, Option, none, some, length, get_elem?, set, drop, leb, ltb, ◌==◌, if◌then◌else◌,
}
use network_gamepads.Os.{Os, Call, AbsInfo, InputEvent}
use network_gamepads.Protocol.{
  message_reserved_unconn, message_success, message_invalid_password, message_invalid,
  message_password_required, message_setup_required, sizeof_password, sizeof_absinfo,
  sizeof_request_event, sizeof_device, sizeof_data,
}
use network_gamepads.Uinput.{create_device, cleanup_device}
use network_gamepads.Server.State.{
  Config, GamepadClient, EnabledEvent, Proc, ret, when◌then◌else◌, ◌>>=◌, ◌>>◌, client, modify,
  lift, sys, send_reply_message, set_status, ev_max, key_max, abs_cnt, close_fd,
}

abbrev byte : List ℕ → ℕ → Proc ℕ
byte msg i = lift (get_elem? msg i)

-- Words of the host, which is little-endian, and of the network.
abbrev le16 : List ℕ → ℕ → Proc ℕ
le16 msg i = do lo ← byte msg i; hi ← byte msg (suc i); ret (lo + 256 * hi)

abbrev le32 : List ℕ → ℕ → Proc ℕ
le32 msg i = do lo ← le16 msg i; hi ← le16 msg (suc (suc i)); ret (lo + 65536 * hi)

abbrev be16 : List ℕ → ℕ → Proc ℕ
be16 msg i = do hi ← byte msg i; lo ← byte msg (suc i); ret (256 * hi + lo)

abbrev be32 : List ℕ → ℕ → Proc ℕ
be32 msg i = do hi ← be16 msg i; lo ← be16 msg (suc (suc i)); ret (65536 * hi + lo)

-- client_close. `slot` is only logged.
unfoldable pub client_close : Os → Bool → Proc ℤ
client_close os cleanup = do
  _ ← (when cleanup then cleanup_device os else ret true)
  c ← client
  when is_neg c.fd then ret tt else close_fd os
  modify (λ c. record c {
    status = message_reserved_unconn;
    scan_offset = 0;
    meta = record c.meta { enabled_events = [] };
  })
  ret (pos 0)

-- strncmp of the C string `p` and the memory `m`: whether they differ in the first `n` bytes.
strncmp : List ℕ → List ℕ → ℕ → Option Bool
strncmp p m zero = some false
strncmp p [] (suc n) = none
strncmp [] (y ∷ m) (suc n) = some (not (y == 0))
strncmp (x ∷ p) (y ∷ m) (suc n) = let rest = strncmp p m n in if x == y then rest else some true

-- The status that a password message leads to.
abbrev verdict : Bool → ℤ → ℕ
verdict differs ev_fd =
    if differs
    then message_invalid_password
    else if is_neg ev_fd
    then message_setup_required
    else message_success

unfoldable pub handle_password : Os → Config → List ℕ → Proc ℤ
unfolding strncmp
handle_password os config msg = do
  c ← client
  len ← byte msg 1
  when not (c.status == message_password_required) then ret (pos (sizeof_password + len)) else (do
    differs ← lift (strncmp config.password (drop 2 msg) len)
    let message = verdict differs c.ev_fd
    set_status message
    sent ← send_reply_message os (message ∷ [])
    ret (if sent then pos (sizeof_password + len) else minus_one))

unfoldable pub handle_absinfo : List ℕ → Proc ℤ
handle_absinfo msg = do
  c ← client
  axis ← byte msg 1
  when not (c.status == message_setup_required) || leb abs_cnt axis then ret minus_one else (do
    value ← le32 msg 2
    minimum ← le32 msg 6
    maximum ← le32 msg 10
    fuzz ← le32 msg 14
    flat ← le32 msg 18
    resolution ← le32 msg 22
    modify (λ c. record c {
      meta = record c.meta {
        absinfo = set c.meta.absinfo axis (record {
          value = value;
          minimum = minimum;
          maximum = maximum;
          fuzz = fuzz;
          flat = flat;
          resolution = resolution;
        });
      };
    })
    ret (pos sizeof_absinfo))

-- memcpy of `n` bytes; `none` is a read outside of the buffer.
copy : List ℕ → ℕ → Option (List ℕ)
copy m zero = some []
copy [] (suc n) = none
copy (x ∷ m) (suc n) = elim (copy m n) [ none ↦ none | some bytes ↦ some (x ∷ bytes) ]

-- A failed malloc is not checked: memcpy then writes through NULL.
unfoldable pub handle_device : Os → List ℕ → Proc ℤ
unfolding copy
handle_device os msg = do
  c ← client
  when not (c.status == message_setup_required) then ret minus_one else (do
    len ← byte msg 1
    block ← sys os (Call.alloc len)
    name ← lift (if is_neg block then none else copy (drop 10 msg) len)
    modify (λ c. record c { meta = record c.meta { name = some name } })
    ret (pos (sizeof_device + len)))

unfoldable pub handle_setup_required : Os → Proc ℤ
handle_setup_required os = do
  c ← client
  when not (c.status == message_success) then ret minus_one else (do
    set_status message_setup_required
    sent ← send_reply_message os (message_setup_required ∷ [])
    ret (if sent then pos 1 else minus_one))

unfoldable pub handle_quit : Os → Proc ℤ
unfolding client_close
handle_quit os = do _ ← client_close os true; ret minus_one

-- enabled_events grows by realloc, 16 bytes to an event; where that fails the list is lost.
unfoldable pub append_event : Os → EnabledEvent → Proc ℤ
append_event os event = do
  c ← client
  block ← sys os (Call.alloc ((length c.meta.enabled_events + 1) * 16))
  when is_neg block
      then (do
        modify (λ c. record c { meta = record c.meta { enabled_events = [] } })
        ret minus_one)
      else (do
        modify (λ c. record c {
          meta = record c.meta { enabled_events = c.meta.enabled_events ++ event ∷ [] };
        })
        ret (pos sizeof_request_event))

unfoldable pub handle_request_event : Os → Config → List ℕ → Proc ℤ
handle_request_event os config msg = do
  c ← client
  when not (c.status == message_setup_required)
      then (do _ ← send_reply_message os (message_invalid ∷ []); ret minus_one)
      else (do
        type ← le16 msg 1
        code ← le16 msg 3
        let refused = leb ev_max type || leb key_max code
        let forbidden = config.whitelist type code == 0
        when refused
            then ret minus_one
            else when forbidden
            then ret (pos sizeof_request_event)
            else append_event os (record { type = type; code = code }))

unfoldable pub handle_setup_end : Os → ℕ → Proc ℤ
handle_setup_end os slot = do
  c ← client
  when not (c.status == message_setup_required)
      then (do _ ← send_reply_message os (message_invalid ∷ []); ret minus_one)
      else (do
        created ← create_device os
        when not created then ret minus_one else (do
          set_status message_success
          sent ← send_reply_message os (message_success ∷ (slot + 1) % 256 ∷ [])
          ret (if sent then pos 1 else minus_one)))

unfoldable pub handle_data : Os → List ℕ → Proc ℤ
handle_data os msg = do
  c ← client
  when not (c.status == message_success) then ret (pos sizeof_data) else (do
    type ← be16 msg 1
    code ← be16 msg 3
    value ← be32 msg 5
    bytes ← sys os (Call.write_event c.ev_fd (record { type = type; code = code; value = value }))
    ret (if is_neg bytes then minus_one else pos sizeof_data))
