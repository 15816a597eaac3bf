-- ===== src/Args.antt =====
-- The argument parser libs/easy_args.c. A string is the list of its characters, argv is the list of
-- its argc strings, and a container that an argument is stored in is its number in `Memory`.
pub mod Parse
pub mod Adding
pub mod Results
pub mod Positional
use network_gamepads.Base.{
  ℕ, zero, suc, ◌+◌, ℤ, pos, negsuc, minus_one, Bool, true, false, ◌&&◌, ◌||◌, List, [], ◌∷◌,
  Option, none, some, ltb, ◌==◌, if◌then◌else◌, length, get_elem?,
}

-- (int) strtol(text, NULL, 10) and (unsigned) strtoul(text, NULL, 10).
pub record Numerals : Type 0 where
  pub strtol : List ℕ → ℤ
  pub strtoul : List ℕ → ℕ

-- The containers of each type, and what the pointer config points to.
pub record Memory (C : Type 0) : Type 0 where
  pub strings : ℕ → Option (List ℕ)
  pub flags : ℕ → Bool
  pub ints : ℕ → ℤ
  pub uints : ℕ → ℕ
  pub config : C

-- argType with the pointer that stands in the field func: a container, or a function of argv and config.
pub data ArgType (C : Type 0) : Type 0 where
  type_int type_uint type_flag type_string : ℕ → ArgType C
  type_func : (List (List ℕ) → C → ℤ × C) → ArgType C

pub record ArgumentItem (C : Type 0) : Type 0 where
  pub arg_short : Option (List ℕ)
  pub arg_long : Option (List ℕ)
  pub type : ArgType C
  pub arguments : ℕ

-- What base points to: the items, or memory that eargs_clear has freed.
pub data Table (C : Type 0) : Type 0 where
  live : List (ArgumentItem C) → Table C
  freed : Table C

module _ {ℓ} {A : Type ℓ} where
  abbrev pub store_at : (ℕ → A) → ℕ → A → ℕ → A
  store_at f i a j = if i == j then a else f j

-- strcmp(a, b) is 0.
unfoldable pub strcmp : List ℕ → List ℕ → Bool
strcmp [] [] = true
strcmp [] (y ∷ ys) = false
strcmp (x ∷ xs) [] = false
strcmp (x ∷ xs) (y ∷ ys) = let rest = strcmp xs ys in (x == y) && rest

unfoldable pub is_named : List ℕ → Option (List ℕ) → Bool
is_named cmd none = false
is_named cmd (some name) = strcmp cmd name

module _ {C : Type 0} where
  unfoldable pub append_item : List (ArgumentItem C) → ArgumentItem C → List (ArgumentItem C)
  append_item [] item = item ∷ []
  append_item (x ∷ xs) item = x ∷ append_item xs item

  -- eargs_addArgumentElem; `none` is the use of memory that was freed.
  unfoldable pub add_argument_elem :
      Option (List ℕ) → Option (List ℕ) → ArgType C → ℕ → Table C → Option (ℤ × Table C)
  unfolding append_item
  add_argument_elem short long type arguments freed = none
  add_argument_elem short long type arguments (live items) = some (
    pos 1,
    live (
        append_item items
          (record { arg_short = short; arg_long = long; type = type; arguments = arguments })),
  )

  unfoldable pub add_argument_string :
      Option (List ℕ) → Option (List ℕ) → ℕ → Table C → Option (ℤ × Table C)
  add_argument_string short long container = add_argument_elem short long (type_string container) 1

  unfoldable pub add_argument_flag :
      Option (List ℕ) → Option (List ℕ) → ℕ → Table C → Option (ℤ × Table C)
  add_argument_flag short long container = add_argument_elem short long (type_flag container) 0

  unfoldable pub add_argument_int :
      Option (List ℕ) → Option (List ℕ) → ℕ → Table C → Option (ℤ × Table C)
  add_argument_int short long container = add_argument_elem short long (type_int container) 1

  unfoldable pub add_argument_uint :
      Option (List ℕ) → Option (List ℕ) → ℕ → Table C → Option (ℤ × Table C)
  add_argument_uint short long container = add_argument_elem short long (type_uint container) 1

  unfoldable pub add_argument :
      Option (List ℕ)
      → Option (List ℕ)
      → (List (List ℕ) → C → ℤ × C)
      → ℕ
      → Table C
      → Option (ℤ × Table C)
  add_argument short long func arguments = add_argument_elem short long (type_func func) arguments

  -- eargs_clear does not reset base.
  unfoldable pub clear : Table C → Table C
  clear (live []) = live []
  clear (live (x ∷ xs)) = freed
  clear freed = freed

  -- The handlers; argv[argc] is NULL. `none` is strtol of NULL.
  unfoldable pub handle_string : ℕ → List (List ℕ) → Memory C → Option (ℤ × Memory C)
  handle_string container cmds m =
      some (pos 1, record m { strings = store_at m.strings container (get_elem? cmds 1) })

  handle_flag : ℕ → List (List ℕ) → Memory C → Option (ℤ × Memory C)
  handle_flag container cmds m = some (pos 0, record m { flags = store_at m.flags container true })

  handle_int : Numerals → ℕ → List (List ℕ) → Memory C → Option (ℤ × Memory C)
  handle_int num container cmds m = elim (get_elem? cmds 1) [
    | none ↦ none
    | some v ↦ some (pos 1, record m { ints = store_at m.ints container (num.strtol v) })
  ]

  handle_uint : Numerals → ℕ → List (List ℕ) → Memory C → Option (ℤ × Memory C)
  handle_uint num container cmds m = elim (get_elem? cmds 1) [
    | none ↦ none
    | some v ↦ some (pos 1, record m { uints = store_at m.uints container (num.strtoul v) })
  ]

  handle_func : (List (List ℕ) → C → ℤ × C) → List (List ℕ) → Memory C → Option (ℤ × Memory C)
  handle_func p cmds m = let (v, config) = p cmds m.config in some (v, record m { config = config })

  unfoldable pub action :
      Numerals → ArgumentItem C → List (List ℕ) → Memory C → Option (ℤ × Memory C)
  unfolding handle_string handle_flag handle_int handle_uint handle_func
  action num item cmds m = elim item.type [
    | type_int container ↦ handle_int num container cmds m
    | type_uint container ↦ handle_uint num container cmds m
    | type_flag container ↦ handle_flag container cmds m
    | type_string container ↦ handle_string container cmds m
    | type_func p ↦ handle_func p cmds m
  ]

  -- The short or the long name of the item is the string.
  unfoldable pub is_match : List ℕ → ArgumentItem C → Bool
  unfolding is_named
  is_match cmd item = is_named cmd item.arg_short || is_named cmd item.arg_long

  -- A status below 0 is -2 for the caller.
  unfoldable pub checked : Option (ℤ × Memory C) → Option (ℤ × Memory C)
  checked none = none
  checked (some (pos v, m)) = some (pos v, m)
  checked (some (negsuc v, m)) = some (negsuc 1, m)

  -- The loop of eargs_parseItem over the items.
  unfoldable pub parse_items :
      Numerals → List (ArgumentItem C) → List ℕ → List (List ℕ) → Memory C → Option (ℤ × Memory C)
  parse_items num [] cmd cmds m = some (minus_one, m)
  parse_items num (item ∷ items) cmd cmds m =
      let rest = parse_items num items cmd cmds m in
      if is_match cmd item
      then (if ltb item.arguments (length cmds)
          then checked (action num item cmds m)
          else some (negsuc 1, m))
      else rest

  unfoldable pub parse_item :
      Numerals → List (ArgumentItem C) → List (List ℕ) → Memory C → Option (ℤ × Memory C)
  parse_item num items [] m = some (minus_one, m)
  parse_item num items (cmd ∷ cmds) m = parse_items num items cmd (cmd ∷ cmds) m
