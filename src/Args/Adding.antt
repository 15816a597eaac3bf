-- ===== src/Args/Adding.antt =====
-- Arguments that are added to the table of libs/easy_args.c and then parsed.
use network_gamepads.Base.{
  ℕ, ◌≡◌, refl, ℤ, pos, negsuc, true, false, List, [], ◌∷◌, Option, none, some, arith, ◌||◌,
}
use network_gamepads.Args.{
  Numerals, Memory, type_string, ArgumentItem, Table, live, freed, add_argument_elem,
  add_argument_string, append_item, handle_string, action, checked, store_at, is_named, is_match,
  parse_items, parse_item,
}
use network_gamepads.Args.Parse.{Output, parse_loop}

module _ {C : Type 0} where
  -- No item has the string as a name.
  abbrev pub IsUnknown : List (ArgumentItem C) → List ℕ → Type 0
  IsUnknown [] cmd = Unit
  IsUnknown (item ∷ items) cmd = (is_match cmd item ≡ false) × IsUnknown items cmd

  -- Items that do not have the name are passed over.
  parse_items-append_item :
      (num : Numerals) (items : List (ArgumentItem C)) (item : ArgumentItem C) (cmd : List ℕ)
      → (cmds : List (List ℕ)) (m : Memory C) → IsUnknown items cmd
      → parse_items num (append_item items item) cmd cmds m ≡ parse_items num (item ∷ []) cmd cmds m
  unfolding parse_items append_item
  parse_items-append_item num [] item cmd cmds m h = refl
  parse_items-append_item num (x ∷ xs) item cmd cmds m h =
      ground (arith, parse_items-append_item num xs item cmd cmds m h.1)

  abbrev stored_string : ℕ → List ℕ → Memory C → Memory C
  stored_string container v m = record m { strings = store_at m.strings container (some v) }

  string_item : Option (List ℕ) → Option (List ℕ) → ℕ → ArgumentItem C
  string_item short long container = record {
    arg_short = short;
    arg_long = long;
    type = type_string container;
    arguments = 1;
  }

  -- With the new table the name and the string behind it are taken, and the name alone is an error.
  abbrev pub Takes :
      Numerals
      → ℕ
      → List ℕ
      → List ℕ
      → List (List ℕ)
      → ℕ
      → Output
      → Memory C
      → Option (ℤ × Table C)
      → Type 0
  Takes num container cmd v args n output m none = ⊥
  Takes num container cmd v args n output m (some (r, freed)) = ⊥
  Takes num container cmd v args n output m (some (r, live items)) =
      (parse_loop num items 0 (cmd ∷ v ∷ args) n output m
        ≡ parse_loop num items 0 args n output (stored_string container v m))
      × (parse_loop num items 0 (cmd ∷ []) n output m ≡ some (negsuc 1, output, m))

  parse_item-string :
      (num : Numerals) (items : List (ArgumentItem C)) (short long : Option (List ℕ))
      → (container : ℕ) (cmd v : List ℕ) (args : List (List ℕ)) (m : Memory C) → IsUnknown items cmd
      → (is_named cmd short || is_named cmd long) ≡ true
      → parse_item num (append_item items (string_item short long container)) (cmd ∷ v ∷ args) m
        ≡ some (pos 1, stored_string container v m)
  unfolding parse_item string_item parse_items is_match action checked handle_string
  parse_item-string num items short long container cmd v args m h e = ground (
    arith,
    parse_items-append_item num items (string_item short long container) cmd (cmd ∷ v ∷ args) m h,
  )

  parse_item-string_alone :
      (num : Numerals) (items : List (ArgumentItem C)) (short long : Option (List ℕ))
      → (container : ℕ) (cmd : List ℕ) (m : Memory C) → IsUnknown items cmd
      → (is_named cmd short || is_named cmd long) ≡ true
      → parse_item num (append_item items (string_item short long container)) (cmd ∷ []) m
        ≡ some (negsuc 1, m)
  unfolding parse_item string_item parse_items is_match
  parse_item-string_alone num items short long container cmd m h e = ground (
    arith,
    parse_items-append_item num items (string_item short long container) cmd (cmd ∷ []) m h,
  )

  -- After eargs_addArgumentString with a name that no item of the table has, the name takes the
  -- string behind it: it is stored in the container, both are skipped, and the parsing goes on. At
  -- the end of argv the name makes it stop with -2.
  pub add_argument_string-Takes :
      (num : Numerals) (items : List (ArgumentItem C)) (short long : Option (List ℕ))
      → (container : ℕ) (cmd v : List ℕ) (args : List (List ℕ)) (n : ℕ) (output : Output)
      → (m : Memory C) → IsUnknown items cmd
      → (is_named cmd short || is_named cmd long) ≡ true
      → Takes num container cmd v args n output m
          (add_argument_string short long container (live items))
  unfolding add_argument_string add_argument_elem string_item parse_loop
  add_argument_string-Takes num items short long container cmd v args n output m h e = ground (
    arith,
    parse_item-string num items short long container cmd v args m h e,
    parse_item-string_alone num items short long container cmd m h e,
  )
