-- ===== src/Osc/Parse.antt =====
-- Messages of OSC: osc_parse and osc_param_float of osc/osc-xlater.c. `mem` is the whole buffer, of
-- which the first `len` bytes have been received; what lies behind them is left from before.
pub mod Encoded
pub mod Arguments
use network_gamepads.Base.{
  ℕ, zero, suc, ◌+◌, ◌*◌, ◌/◌, ◌%◌, Bool, true, false, not, ◌||◌, List, [], ◌∷◌, Option, none, some,
  get_elem?, ltb, ◌==◌, if◌then◌else◌, take, drop,
}
use network_gamepads.Osc.{Floats}

abbrev pub comma : ℕ
comma = 0x2C

-- nextdword(a)
unfoldable pub nextdword : ℕ → ℕ
nextdword a = (a / 4 + (if a % 4 == 0 then 0 else 1)) * 4

-- memchr(buffer, 0, len)
unfoldable pub has_nul : List ℕ → ℕ → Bool
has_nul mem zero = false
has_nul [] (suc len) = false
has_nul (x ∷ mem) (suc len) = x == 0 || has_nul mem len

-- `none` is a read behind the end of the memory.
unfoldable pub strlen : List ℕ → Option ℕ
strlen [] = none
strlen (x ∷ mem) =
    let rest : Option ℕ = elim (strlen mem) [ none ↦ none | some n ↦ some (suc n) ] in
    if x == 0 then some 0 else rest

-- What osc_parse stores: the number of arguments, and where in the buffer they are. The path is at
-- the start of the buffer.
pub record OscMessage : Type 0 where
  pub num_args : ℕ
  pub args : ℕ

-- The tests behind the two strings. args_supplied is still 0 in the first of them.
accept : List ℕ → ℕ → ℕ → ℕ → ℕ → Option (Option OscMessage)
accept mem len param_str param_len data_off =
    if ltb len (param_str + param_len) || ltb len (data_off + 4 * 0)
    then some none
    else elim (get_elem? mem param_str) [
      | none ↦ none
      | some c ↦ if not (c == comma) then some none else elim (strlen (drop (param_str + 1) mem)) [
        | none ↦ none
        | some args_supplied ↦ some (some (record { num_args = args_supplied; args = data_off }))
      ]
    ]

parse_format : List ℕ → ℕ → ℕ → Option (Option OscMessage)
unfolding accept nextdword
parse_format mem len param_str = elim (strlen (drop param_str mem)) [
  | none ↦ none
  | some n ↦ accept mem len param_str n (param_str + nextdword (n + 1))
]

-- osc_parse: `some none` is the error -1, and `none` a read outside of the buffer.
unfoldable pub osc_parse : List ℕ → ℕ → Option (Option OscMessage)
unfolding parse_format has_nul strlen nextdword
osc_parse mem len =
    if not (has_nul mem len)
    then some none
    else elim (strlen mem) [ none ↦ none | some n ↦ parse_format mem len (nextdword (n + 1)) ]

-- osc_param_float: the four bytes of an argument, which are in the order of the network.
unfoldable pub osc_param_float : {F : Type 0} → Floats F → List ℕ → ℕ → Option F
osc_param_float fl args index = elim (get_elem? args (index * 4)) [
  | none ↦ none
  | some a ↦ elim (get_elem? args (index * 4 + 1)) [
    | none ↦ none
    | some b ↦ elim (get_elem? args (index * 4 + 2)) [
      | none ↦ none
      | some c ↦ elim (get_elem? args (index * 4 + 3)) [
        | none ↦ none
        | some d ↦ some (fl.of_bytes (d ∷ c ∷ b ∷ a ∷ []))
      ]
    ]
  ]
]
