-- ===== src/Server/Data/Loop.antt =====
-- client_data as the while loop of the source, without fuel, and the invariant rule of that loop.
use network_gamepads.Base.{
  zero, ℕ, suc, ◌≤◌, ◌<◌, ◌≡◌, ◌∙◌, subst, inl, inr, ℤ, pos, negsuc, pos_part, is_pos, Bool, true,
  false, Option, none, some, arith, Bool-cases, if◌then◌else◌,
}
use network_gamepads.Os.{Os}
use network_gamepads.Server.State.{Config, Session}
use network_gamepads.Server.Data.{client_data_round, client_data_loop, client_data}
use network_gamepads.Server.Data.Progress.{
  Round-cases, Shrinks, client_data_round-Shrinks, client_data_loop_fuel,
}

-- What follows a round: a return, or the loop again.
abbrev pub resume :
    (Session → Option (Bool × Session)) → Option (Option Bool × Session) → Option (Bool × Session)
resume again none = none
resume again (some (some b, s)) = some (b, s)
resume again (some (none, s)) = again s

loop_lem :
    (os : Os) (config : Config) (slot fuel : ℕ) (s : Session)
    → pos_part s.client.bytes_available ≤ suc fuel
    → client_data_loop os config slot (suc fuel) s ≡ (
        if is_pos s.client.bytes_available
        then resume (client_data os config slot) (client_data_round os config slot s)
        else some (true, s))
unfolding client_data client_data_loop
loop_lem os config slot fuel s h = elim (Round-cases (client_data_round os config slot s)) [
  | inl e ↦ ground arith
  | inr (inl (b, s', e)) ↦ ground arith
  | inr (inr (s', e)) ↦ ground (
    arith,
    client_data_round-Shrinks os config slot s,
    client_data_loop_fuel os config slot fuel (pos_part s'.client.bytes_available) s',
  )
]

-- client_data satisfies the equation of the loop `while (bytes_available > 0) round`.
pub client_data_lem :
    (os : Os) (config : Config) (slot : ℕ) (s : Session)
    → client_data os config slot s ≡ (
        if is_pos s.client.bytes_available
        then resume (client_data os config slot) (client_data_round os config slot s)
        else some (true, s))
unfolding client_data
client_data_lem os config slot s =
    let n : ℕ = pos_part s.client.bytes_available in
    client_data_loop_fuel os config slot n (suc n) s (omega arith) (omega arith)
    ∙ loop_lem os config slot n s (omega arith)

-- The loop `while (bytes_available > 0) round` of the source, with no fuel: it ends with the result
-- after so many rounds. `none` is a round with undefined behaviour.
pub data Ends (os : Os) (config : Config) (slot : ℕ)
    : ℕ → Session → Option (Bool × Session) → Type 0 where
  stopped :
      {s : Session}
      → is_pos s.client.bytes_available ≡ false
      → Ends os config slot 0 s (some (true, s))
  undefined :
      {s : Session}
      → is_pos s.client.bytes_available ≡ true
      → client_data_round os config slot s ≡ none
      → Ends os config slot 1 s none
  returned :
      {s s' : Session} {b : Bool}
      → is_pos s.client.bytes_available ≡ true
      → client_data_round os config slot s ≡ some (some b, s')
      → Ends os config slot 1 s (some (b, s'))
  again :
      {s s' : Session} {n : ℕ} {r : Option (Bool × Session)}
      → is_pos s.client.bytes_available ≡ true
      → client_data_round os config slot s ≡ some (none, s')
      → Ends os config slot n s' r
      → Ends os config slot (suc n) s r

-- It ends, after at most as many rounds as bytes are waiting.
abbrev pub EndsInTime : Os → Config → ℕ → Session → Option (Bool × Session) → Type 0
EndsInTime os config slot s r =
    (n : ℕ) × (n ≤ pos_part s.client.bytes_available) × Ends os config slot n s r

is_pos-lt : (z : ℤ) → is_pos z ≡ true → 1 ≤ pos_part z
is_pos-lt (pos n) e = ground arith
is_pos-lt (negsuc n) e = ground arith

client_data_loop-EndsInTime :
    (os : Os) (config : Config) (slot fuel : ℕ) (s : Session)
    → pos_part s.client.bytes_available ≤ fuel
    → EndsInTime os config slot s (client_data_loop os config slot fuel s)
unfolding client_data_loop
client_data_loop-EndsInTime os config slot zero s h =
    elim (Bool-cases (is_pos s.client.bytes_available)) [
      | inl e ↦ absurd (omega (arith, is_pos-lt s.client.bytes_available e))
      | inr e ↦ rw (e, EndsInTime) (0, omega arith, stopped e)
    ]
client_data_loop-EndsInTime os config slot (suc fuel) s h =
    elim (Bool-cases (is_pos s.client.bytes_available)) [
      | inr e ↦ rw (e, EndsInTime) (0, omega arith, stopped e)
      | inl e ↦
          rw (e, EndsInTime)
            (elim (Round-cases (client_data_round os config slot s)) [
              | inl r ↦ rw (r, EndsInTime) (1, is_pos-lt s.client.bytes_available e, undefined e r)
              | inr (inl (b, s', r)) ↦
                  rw (r, EndsInTime) (1, is_pos-lt s.client.bytes_available e, returned e r)
              | inr (inr (s', r)) ↦
                  let less : pos_part s'.client.bytes_available
                      < pos_part s.client.bytes_available =
                    subst (Shrinks s) r (client_data_round-Shrinks os config slot s e) in
                  let (n, le, ends) =
                    client_data_loop-EndsInTime os config slot fuel s' (omega arith) in
                  rw (r, EndsInTime) (suc n, omega arith, again e r ends)
            ])
    ]

-- The while loop of client_data ends, after at most as many rounds as bytes are waiting, and what it
-- ends with is the result of client_data.
pub client_data-EndsInTime :
    (os : Os) (config : Config) (slot : ℕ) (s : Session)
    → EndsInTime os config slot s (client_data os config slot s)
unfolding client_data
client_data-EndsInTime os config slot s =
    client_data_loop-EndsInTime os config slot (pos_part s.client.bytes_available) s (omega arith)

-- A property that every round keeps and every return has holds of the result.
abbrev pub Returns : (Bool → Session → Type 0) → Option (Bool × Session) → Type 0
Returns Q none = Unit
Returns Q (some (b, s)) = Q b s

abbrev pub Rounds :
    (Session → Type 0) → (Bool → Session → Type 0) → Option (Option Bool × Session) → Type 0
Rounds P Q none = Unit
Rounds P Q (some (some b, s)) = Q b s
Rounds P Q (some (none, s)) = P s

module _ (os : Os) (config : Config) (slot : ℕ) (P : Session → Type 0)
    (Q : Bool → Session → Type 0) where
  loop_inv :
      ((s : Session)
        → P s
        → is_pos s.client.bytes_available ≡ true
        → Rounds P Q (client_data_round os config slot s))
      → ((s : Session) → P s → Q true s)
      → (fuel : ℕ) (s : Session) → P s
      → Returns Q (client_data_loop os config slot fuel s)
  unfolding client_data_loop
  loop_inv keep stop zero s p = elim (Bool-cases (is_pos s.client.bytes_available)) [
    | inl e ↦ rw e tt
    | inr e ↦ rw e (stop s p)
  ]
  loop_inv keep stop (suc fuel) s p = elim (Bool-cases (is_pos s.client.bytes_available)) [
    | inr e ↦ rw e (stop s p)
    | inl e ↦ rw e (elim (Round-cases (client_data_round os config slot s)) [
      | inl r ↦ rw r tt
      | inr (inl (b, s', r)) ↦ rw r (rw r at (keep s p e))
      | inr (inr (s', r)) ↦ rw r (loop_inv keep stop fuel s' (rw r at (keep s p e)))
    ])
  ]

  pub client_data_inv :
      ((s : Session)
        → P s
        → is_pos s.client.bytes_available ≡ true
        → Rounds P Q (client_data_round os config slot s))
      → ((s : Session) → P s → Q true s)
      → (s : Session) → P s
      → Returns Q (client_data os config slot s)
  unfolding client_data
  client_data_inv keep stop s p = loop_inv keep stop (pos_part s.client.bytes_available) s p
