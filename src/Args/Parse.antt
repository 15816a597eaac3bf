-- ===== src/Args/Parse.antt =====
-- eargs_parse of libs/easy_args.c: argv against the table, and the array of the strings left over.
use network_gamepads.Base.{
  ℕ, zero, suc, ℤ, pos, negsuc, true, false, List, [], ◌∷◌, ◌++◌, Option, none, some, ltb, ◌==◌,
  if◌then◌else◌, length, set, replicate, drop,
}
use network_gamepads.Args.{Numerals, Memory, ArgumentItem, Table, live, freed, clear, parse_item}

-- The array of pointers that the caller gives, or NULL.
abbrev pub Output : Type 0
Output = Option (List (Option (List ℕ)))

-- output[outputc] = argv[i], unless output is NULL; `none` is a write outside of the array.
unfoldable pub put : Output → ℕ → List ℕ → Option Output
put none outputc arg = some none
put (some output) outputc arg =
    if ltb outputc (length output) then some (some (set output outputc (some arg))) else none

-- memset(output, 0, argc * sizeof(char*)).
unfoldable pub reset : ℕ → Output → Option Output
reset argc none = some none
reset argc (some output) =
    if ltb (length output) argc then none else some (some (replicate argc none ++ drop argc output))

module _ {C : Type 0} (num : Numerals) (items : List (ArgumentItem C)) where
  -- The loop over the rest of argv; as many strings as `skipped` says are passed over first.
  unfoldable pub parse_loop :
      ℕ → List (List ℕ) → ℕ → Output → Memory C → Option (ℤ × Output × Memory C)
  unfolding put
  parse_loop skipped [] outputc output m = some (pos outputc, output, m)
  parse_loop (suc skipped) (arg ∷ args) outputc output m = parse_loop skipped args outputc output m
  parse_loop zero (arg ∷ args) outputc output m = elim (parse_item num items (arg ∷ args) m) [
    | none ↦ none
    | some (pos v, m') ↦ parse_loop v args outputc output m'
    | some (negsuc v, m') ↦ elim (v == 1) [
      | true ↦ some (negsuc 1, output, m')
      | false ↦ elim (put output outputc arg) [
        | none ↦ none
        | some output' ↦ parse_loop 0 args (suc outputc) output' m'
      ]
    ]
  ]

module _ {C : Type 0} where
  -- The end of eargs_parse: the table is cleared, except after an error.
  unfoldable pub finish :
      Table C → Option (ℤ × Output × Memory C) → Option (ℤ × Output × Table C × Memory C)
  finish table none = none
  finish table (some (negsuc v, output, m)) = some (negsuc v, output, table, m)
  finish table (some (pos n, output, m)) = some (pos n, output, clear table, m)

  unfoldable pub parse_args :
      Numerals
      → Table C
      → List (List ℕ)
      → Output
      → Memory C
      → Option (ℤ × Output × Table C × Memory C)
  unfolding finish
  parse_args num freed args output m = none
  parse_args num (live items) args output m =
      finish (live items) (parse_loop num items 0 args 0 output m)

  unfoldable pub parse :
      Numerals
      → List (List ℕ)
      → Output
      → Table C
      → Memory C
      → Option (ℤ × Output × Table C × Memory C)
  unfolding parse_args reset
  parse num argv output table m = elim (reset (length argv) output) [
    | none ↦ none
    | some output' ↦ parse_args num table (drop 1 argv) output' m
  ]
