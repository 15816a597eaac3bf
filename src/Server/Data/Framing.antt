-- ===== src/Server/Data/Framing.antt =====
-- client_data of server/input-server.c and the messages of the stream.
use network_gamepads.Base.{
  ℕ, ◌+◌, ◌<◌, ◌≡◌, refl, sym, ap, ◌∙◌, length, take, drop-take, drop-drop, ◌⊎◌, inl, inr, ℤ, pos,
  pos_part, is_neg, ltb_ℤ, ◌-ℤ◌, u32, Bool, true, false, List, Option, none, some, arith, get_elem?,
  drop, length-drop, get_elem?-lt, All-get_elem?, All-drop, Option-cases,
}
use network_gamepads.Os.{Os}
use network_gamepads.Protocol.{get_size_from_command}
use network_gamepads.Network.Replies.{AreBytes}
use network_gamepads.Server.State.{Config, GamepadClient, Session, Keeps}
use network_gamepads.Server.Handlers.Frame.{
  handle_password-UsesMore, handle_absinfo-Uses, handle_device-UsesMore, handle_setup_required-Uses,
  handle_request_event-Uses, handle_setup_end-Uses, handle_data-Uses,
}
use network_gamepads.Server.Data.Refill.{IsBuffered, pending}
use network_gamepads.Server.Data.{dispatch, client_data_round}

-- A handler that does not fail has used the size of its message.
abbrev Sized : List ℕ → ℕ → Session → Option (ℤ × Session) → Type 0
Sized msg n s none = Unit
Sized msg n s (some (r, s')) =
    Keeps s s' × ((is_neg r ≡ true) ⊎ (get_size_from_command msg n ≡ some r))

-- The second byte is a byte.
abbrev SecondByte : List ℕ → Type 0
SecondByte msg = (len : ℕ) → get_elem? msg 1 ≡ some len → len < 256

SecondByte-drop : (n : ℕ) (buffer : List ℕ) → AreBytes buffer → SecondByte (drop n buffer)
SecondByte-drop n buffer h len e =
    All-get_elem? (λ b. b < 256) (drop n buffer) 1 len (All-drop (λ b. b < 256) n buffer h) e

dispatch-Sized :
    (os : Os) (config : Config) (slot kind n len : ℕ) (msg : List ℕ) (s : Session)
    → get_elem? msg 0 ≡ some kind
    → get_elem? msg 1 ≡ some len
    → len < 256
    → 1 < n
    → Sized msg n s (dispatch os config slot kind msg s)
unfolding dispatch get_size_from_command
dispatch-Sized os config slot kind n len msg s e d b h = ground (
  arith,
  handle_password-UsesMore os config msg s,
  handle_absinfo-Uses msg s,
  handle_device-UsesMore os msg s,
  handle_setup_required-Uses os s,
  handle_request_event-Uses os config msg s,
  handle_setup_end-Uses os slot s,
  handle_data-Uses os msg s,
)

-- The same as equations between the fields, with the size given.
abbrev Steps : Session → ℤ → Option (Option Bool × Session) → Type 0
Steps s size none = Unit
Steps s size (some (some true, s')) =
    (s' ≡ s) × (is_neg size ≡ false) × (ltb_ℤ s.client.bytes_available size ≡ true)
Steps s size (some (some false, s')) = Unit
Steps s size (some (none, s')) =
    (is_neg size ≡ false)
    × (ltb_ℤ s.client.bytes_available size ≡ false)
    × (s'.client.scan_offset ≡ s.client.scan_offset + pos_part size)
    × (s'.client.bytes_available ≡ s.client.bytes_available -ℤ size)
    × (s'.client.input_buffer ≡ s.client.input_buffer)

client_data_round-Steps :
    (os : Os) (config : Config) (slot kind len n : ℕ) (size : ℤ) (s : Session)
    → u32 (pos_part s.client.bytes_available) ≡ n
    → 1 < n
    → get_elem? (drop s.client.scan_offset s.client.input_buffer) 0 ≡ some kind
    → get_elem? (drop s.client.scan_offset s.client.input_buffer) 1 ≡ some len
    → len < 256
    → get_size_from_command (drop s.client.scan_offset s.client.input_buffer) n ≡ some size
    → Steps s size (client_data_round os config slot s)
unfolding client_data_round
client_data_round-Steps os config slot kind len n size s a h e d b g =
    let msg : List ℕ = drop s.client.scan_offset s.client.input_buffer in
    ground (arith, dispatch-Sized os config slot kind n len msg s e d b h)

-- What a round does to a client whose buffer is in order: the message is not complete and nothing
-- changes, or it is removed from the bytes that wait, or client_data returns false.
abbrev pub Advances : Session → Option (Option Bool × Session) → Type 0
Advances s none = Unit
Advances s (some (some true, s')) =
    (s' ≡ s)
    × ((n : ℕ) × (get_size_from_command (drop s.client.scan_offset s.client.input_buffer)
            (u32 (pos_part s.client.bytes_available))
          ≡ some (pos n))
        × (pos_part s.client.bytes_available < n))
Advances s (some (some false, s')) = Unit
Advances s (some (none, s')) =
    (n : ℕ) × (get_size_from_command (drop s.client.scan_offset s.client.input_buffer)
        (u32 (pos_part s.client.bytes_available))
      ≡ some (pos n))
    × IsBuffered s'.client
    × (pending s'.client ≡ drop n (pending s.client))

pos-pos_part : (z : ℤ) → is_neg z ≡ false → z ≡ pos (pos_part z)
pos-pos_part z h = ground arith

-- The bytes that are left after `n` of those that wait.
pending-skip :
    (c c' : GamepadClient) (n m : ℕ)
    → c'.scan_offset ≡ c.scan_offset + n
    → c'.input_buffer ≡ c.input_buffer
    → pos_part c'.bytes_available ≡ m
    → n + m ≡ pos_part c.bytes_available
    → pending c' ≡ drop n (pending c)
pending-skip c c' n m o b a e =
    rw (o, b, a)
      (sym (
        drop-take n (pos_part c.bytes_available) m (drop c.scan_offset c.input_buffer) e
        ∙ ap (take m) (drop-drop n c.scan_offset (c.scan_offset + n) c.input_buffer refl)))

Steps-Advances :
    (s : Session) (size : ℤ) (r : Option (Option Bool × Session))
    → IsBuffered s.client
    → get_size_from_command
        (drop s.client.scan_offset s.client.input_buffer)
        (u32 (pos_part s.client.bytes_available))
      ≡ some size
    → Steps s size r
    → Advances s r
Steps-Advances s size none v g st = tt
Steps-Advances s size (some (some true, s')) v g st =
    (st.0, (pos_part size, g ∙ ap some (pos-pos_part size st.1), ground (arith, v, st.1, st.2)))
Steps-Advances s size (some (some false, s')) v g st = tt
Steps-Advances s size (some (none, s')) v g st =
    let (positive, enough, o, a, b) = st in
    let n : ℕ = pos_part size in
    let left : n + pos_part s'.client.bytes_available ≡ pos_part s.client.bytes_available =
      ground (arith, v, positive, enough, a) in
    (
      n,
      g ∙ ap some (pos-pos_part size positive),
      record {
        size = ap length b ∙ v.size;
        counted = ground (arith, v, positive, enough, a);
        within = omega (arith, left, o, v);
      },
      pending-skip s.client s'.client n (pos_part s'.client.bytes_available) o b refl left,
    )

-- If the buffer is in order, holds bytes, and at least two of them wait, then a round of client_data
-- that goes on has removed exactly the first message from those that wait, its size being what
-- get_size_from_command says, and leaves the buffer in order; a round that returns true has found
-- fewer bytes than the message has, and has changed nothing.
pub client_data_round-Advances :
    (os : Os) (config : Config) (slot : ℕ) (s : Session)
    → IsBuffered s.client
    → AreBytes s.client.input_buffer
    → 1 < pos_part s.client.bytes_available
    → Advances s (client_data_round os config slot s)
client_data_round-Advances os config slot s v bytes h =
    let buffer : List ℕ = s.client.input_buffer in
    let msg : List ℕ = drop s.client.scan_offset buffer in
    let avail : ℕ = pos_part s.client.bytes_available in
    let (kind, e) =
      get_elem?-lt msg 0 (omega (arith, v, length-drop s.client.scan_offset buffer)) in
    let (len, d) = get_elem?-lt msg 1 (omega (arith, v, length-drop s.client.scan_offset buffer)) in
    let b : len < 256 = SecondByte-drop s.client.scan_offset buffer bytes len d in
    elim (Option-cases (get_size_from_command msg (u32 avail))) [
      | inl g ↦ unfold client_data_round in rw g tt
      | inr (size, g) ↦ Steps-Advances s size (client_data_round os config slot s) v g (
          client_data_round-Steps os config slot kind len (u32 avail) size s refl (omega (arith, v))
            e d b g)
    ]
