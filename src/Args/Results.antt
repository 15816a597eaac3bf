-- ===== src/Args/Results.antt =====
-- What eargs_parse of libs/easy_args.c returns.
use network_gamepads.Base.{
  ℕ, zero, suc, ◌+◌, ◌≤◌, ◌≡◌, refl, subst, inl, inr, ℤ, pos, negsuc, true, List, [], ◌∷◌, ◌++◌,
  Option, none, some, ltb, length, replicate, drop, arith, All, Bool-cases, Option-cases,
  length-set, length-append, length-replicate,
}
use network_gamepads.Args.{
  Numerals, Memory, type_int, type_uint, type_flag, type_string, type_func, ArgumentItem, Table,
  live, clear, action, checked, parse_items, parse_item,
}
use network_gamepads.Args.Parse.{Output, put, reset, parse_args, parse_loop, finish, parse}

-- There are n places or more in the array.
abbrev pub HasRoom : ℕ → Output → Type 0
HasRoom n none = Unit
HasRoom n (some output) = n ≤ length output

abbrev Fits : ℕ → Option Output → Type 0
Fits n none = ⊥
Fits n (some output) = HasRoom n output

put-Fits :
    (output : Output) (n k : ℕ) (arg : List ℕ)
    → suc n ≤ k
    → HasRoom k output
    → Fits k (put output n arg)
unfolding put
put-Fits none n k arg lt room = tt
put-Fits (some output) n k arg lt room = ground (arith, length-set output n (some arg))

HasRoom-suc : (n : ℕ) (output : Output) → HasRoom (suc n) output → HasRoom n output
HasRoom-suc n none room = tt
HasRoom-suc n (some output) room = omega arith

reset-HasRoom :
    (argc : ℕ) (output : Output)
    → HasRoom argc output
    → (output' : Output) × (reset argc output ≡ some output') × HasRoom argc output'
unfolding reset
reset-HasRoom argc none room = (none, refl, tt)
reset-HasRoom argc (some output) room = (
  some (replicate argc none ++ drop argc output),
  ground arith,
  omega (
    arith,
    length-append (replicate argc none) (drop argc output),
    length-replicate {A = Option (List ℕ)} argc none,
  ),
)

module _ {C : Type 0} where
  -- An item that stores a number asks for the string of the number.
  abbrev pub IsComplete : ArgumentItem C → Type 0
  IsComplete item = elim item.type [
    | type_int container ↦ 1 ≤ item.arguments
    | type_uint container ↦ 1 ≤ item.arguments
    | type_flag container ↦ Unit
    | type_string container ↦ Unit
    | type_func p ↦ Unit
  ]

  abbrev IsDefined : Option (ℤ × Memory C) → Type 0
  IsDefined none = ⊥
  IsDefined (some r) = Unit

  checked-action-IsDefined :
      (num : Numerals) (item : ArgumentItem C) (cmds : List (List ℕ)) (m : Memory C)
      → IsComplete item
      → ltb item.arguments (length cmds) ≡ true
      → IsDefined (checked (action num item cmds m))
  unfolding action checked
  checked-action-IsDefined num item [] m h lt = ground arith
  checked-action-IsDefined num item (c ∷ []) m h lt = ground arith
  checked-action-IsDefined num item (c ∷ v ∷ vs) m h lt = ground arith

  parse_items-IsDefined :
      (num : Numerals) (items : List (ArgumentItem C)) (cmd : List ℕ) (cmds : List (List ℕ))
      → (m : Memory C) → All IsComplete items
      → IsDefined (parse_items num items cmd cmds m)
  unfolding parse_items
  parse_items-IsDefined num [] cmd cmds m h = tt
  parse_items-IsDefined num (item ∷ items) cmd cmds m h =
      elim (Bool-cases (ltb item.arguments (length cmds))) [
        | inl e ↦ ground (
          arith,
          parse_items-IsDefined num items cmd cmds m h.1,
          checked-action-IsDefined num item cmds m h.0 e,
        )
        | inr e ↦ ground (arith, parse_items-IsDefined num items cmd cmds m h.1)
      ]

  parse_item-IsDefined :
      (num : Numerals) (items : List (ArgumentItem C)) (cmds : List (List ℕ)) (m : Memory C)
      → All IsComplete items
      → IsDefined (parse_item num items cmds m)
  unfolding parse_item
  parse_item-IsDefined num items [] m h = tt
  parse_item-IsDefined num items (cmd ∷ cmds) m h =
      parse_items-IsDefined num items cmd (cmd ∷ cmds) m h

  -- The error -2, or a count of b at most.
  abbrev Ends : ℕ → Option (ℤ × Output × Memory C) → Type 0
  Ends b none = ⊥
  Ends b (some (pos n, output, m)) = n ≤ b
  Ends b (some (negsuc v, output, m)) = v ≡ 1

  parse_loop-Ends :
      (num : Numerals) (items : List (ArgumentItem C)) (skipped : ℕ) (args : List (List ℕ))
      → (n b : ℕ) (output : Output) (m : Memory C) → All IsComplete items
      → n + length args ≤ b
      → HasRoom b output
      → Ends b (parse_loop num items skipped args n output m)
  unfolding parse_loop
  parse_loop-Ends num items zero [] n b output m h lt room = omega arith
  parse_loop-Ends num items (suc k) [] n b output m h lt room = omega arith
  parse_loop-Ends num items (suc k) (arg ∷ args) n b output m h lt room =
      parse_loop-Ends num items k args n b output m h (omega arith) room
  parse_loop-Ends num items zero (arg ∷ args) n b output m h lt room =
      elim (Option-cases (parse_item num items (arg ∷ args) m)) [
        | inl e ↦ ground (arith, parse_item-IsDefined num items (arg ∷ args) m h)
        | inr ((pos v, m'), e) ↦
            ground (arith, parse_loop-Ends num items v args n b output m' h (omega arith) room)
        | inr ((negsuc v, m'), e) ↦ elim (Option-cases (put output n arg)) [
          | inl e' ↦ ground (arith, put-Fits output n b arg (omega arith) room)
          | inr (output', e') ↦
              let room' : HasRoom b output' =
                subst (Fits b) e' (put-Fits output n b arg (omega arith) room) in
              ground
                (arith, parse_loop-Ends num items 0 args (suc n) b output' m' h (omega arith) room')
        ]
      ]

  -- The table is left as it was with the error -2, and is cleared with a count of b at most.
  abbrev pub Concludes :
      ℕ → List (ArgumentItem C) → Option (ℤ × Output × Table C × Memory C) → Type 0
  Concludes b items none = ⊥
  Concludes b items (some (pos n, output, table, m)) = (n ≤ b) × (table ≡ clear (live items))
  Concludes b items (some (negsuc v, output, table, m)) = (v ≡ 1) × (table ≡ live items)

  finish-Concludes :
      (items : List (ArgumentItem C)) (b : ℕ) (r : Option (ℤ × Output × Memory C))
      → Ends b r
      → Concludes b items (finish (live items) r)
  unfolding finish
  finish-Concludes items b none h = h
  finish-Concludes items b (some (pos n, output, m)) h = (h, refl)
  finish-Concludes items b (some (negsuc v, output, m)) h = (h, refl)

  -- eargs_parse, given the name of the program, arguments, a table whose items for numbers ask for a
  -- string, and no array or one with a place for each string of argv, reads and writes inside of the
  -- arrays only. It returns -2 and leaves the table, or clears the table and returns a count that is
  -- at most the number of arguments.
  pub parse-Concludes :
      (num : Numerals) (items : List (ArgumentItem C)) (program : List ℕ) (args : List (List ℕ))
      → (output : Output) (m : Memory C) → All IsComplete items
      → HasRoom (suc (length args)) output
      → Concludes (length args) items (parse num (program ∷ args) output (live items) m)
  unfolding parse parse_args
  parse-Concludes num items program args output m h room =
      let (output', e, room') = reset-HasRoom (suc (length args)) output room in
      ground (
        arith,
        finish-Concludes items (length args) (parse_loop num items 0 args 0 output' m) (
            parse_loop-Ends num items 0 args 0 (length args) output' m h (omega arith)
              (HasRoom-suc (length args) output' room')),
      )
