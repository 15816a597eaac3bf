-- ===== src/Args/Positional.antt =====
-- The strings of argv that are no arguments of the table (libs/easy_args.c).
use network_gamepads.Base.{
  ℕ, zero, suc, ◌+◌, ◌≤◌, ◌≡◌, refl, sym, ap, ◌∙◌, ℤ, pos, minus_one, List, [], ◌∷◌, ◌++◌, Option,
  none, some, length, arith, replicate, set, map, drop, All, length-append,
}
use network_gamepads.Args.{
  Numerals, Memory, ArgumentItem, Table, live, clear, parse_items, parse_item,
}
use network_gamepads.Args.Adding.{IsUnknown}
use network_gamepads.Args.Parse.{Output, put, parse_loop, reset, finish, parse, parse_args}

module _ {C : Type 0} where
  parse_items-IsUnknown :
      (num : Numerals) (items : List (ArgumentItem C)) (cmd : List ℕ) (cmds : List (List ℕ))
      → (m : Memory C) → IsUnknown items cmd
      → parse_items num items cmd cmds m ≡ some (minus_one, m)
  unfolding parse_items
  parse_items-IsUnknown num [] cmd cmds m h = refl
  parse_items-IsUnknown num (item ∷ items) cmd cmds m h =
      ground (arith, parse_items-IsUnknown num items cmd cmds m h.1)

-- The array with n strings in front, and room for those that follow.
abbrev filled : List (Option (List ℕ)) → List (List ℕ) → List (Option (List ℕ)) → Output
filled front args back = some (front ++ (map some args ++ back))

abbrev unfilled : List (Option (List ℕ)) → List (List ℕ) → List (Option (List ℕ)) → Output
unfilled front args back = some (front ++ (replicate (length args) none ++ back))

set-append_length :
    (xs : List (Option (List ℕ))) (a b : Option (List ℕ)) (ys : List (Option (List ℕ)))
    → set (xs ++ a ∷ ys) (length xs) b ≡ xs ++ b ∷ ys
set-append_length [] a b ys = refl
set-append_length (x ∷ xs) a b ys = ap (◌∷◌ x) (set-append_length xs a b ys)

append-cons :
    (xs : List (Option (List ℕ))) (a : Option (List ℕ)) (ys : List (Option (List ℕ)))
    → (xs ++ a ∷ []) ++ ys ≡ xs ++ a ∷ ys
append-cons [] a ys = refl
append-cons (x ∷ xs) a ys = ap (◌∷◌ x) (append-cons xs a ys)

put-middle :
    (front : List (Option (List ℕ))) (arg : List ℕ) (n : ℕ) (ys : List (Option (List ℕ)))
    → n ≡ length front
    → put (some (front ++ none ∷ ys)) n arg ≡ some (some ((front ++ some arg ∷ []) ++ ys))
unfolding put
put-middle front arg n ys e = ground (
  arith,
  set-append_length front none (some arg) ys,
  append-cons front (some arg) ys,
  length-append front (none ∷ ys),
)

put-unfilled :
    (front : List (Option (List ℕ))) (arg : List ℕ) (args : List (List ℕ)) (n : ℕ)
    → (back : List (Option (List ℕ))) → n ≡ length front
    → put (unfilled front (arg ∷ args) back) n arg
      ≡ some (unfilled (front ++ some arg ∷ []) args back)
put-unfilled front arg args n back e =
    put-middle front arg n (replicate (length args) none ++ back) e

filled-cons :
    (front : List (Option (List ℕ))) (arg : List ℕ) (args : List (List ℕ))
    → (back : List (Option (List ℕ)))
    → filled (front ++ some arg ∷ []) args back ≡ filled front (arg ∷ args) back
filled-cons front arg args back = ap some (append-cons front (some arg) (map some args ++ back))

replicate-append_one :
    (n : ℕ) → replicate {A = Option (List ℕ)} n none ++ none ∷ [] ≡ none ∷ replicate n none
replicate-append_one zero = refl
replicate-append_one (suc n) = ap (◌∷◌ none) (replicate-append_one n)

append-drop :
    (n : ℕ) (xs output : List (Option (List ℕ))) → length output ≤ n → xs ++ drop n output ≡ xs
append-drop zero [] [] h = refl
append-drop zero [] (o ∷ os) h = absurd (omega arith)
append-drop (suc n) [] [] h = refl
append-drop (suc n) [] (o ∷ os) h = append-drop n [] os (omega arith)
append-drop n (x ∷ xs) output h = ap (◌∷◌ x) (append-drop n xs output h)

reset-exact :
    (n : ℕ) (output : List (Option (List ℕ)))
    → length output ≡ suc n
    → reset (suc n) (some output) ≡ some (some (replicate n none ++ none ∷ []))
unfolding reset
reset-exact n output h = ground (
  arith,
  replicate-append_one n,
  append-drop (suc n) (none ∷ replicate n none) output (omega arith),
)

length-append_one :
    (xs : List (Option (List ℕ))) (a : Option (List ℕ)) → length (xs ++ a ∷ []) ≡ suc (length xs)
length-append_one [] a = refl
length-append_one (x ∷ xs) a = ap suc (length-append_one xs a)

module _ {C : Type 0} where
  counted :
      {a b : ℕ} {x y : Output} {m : Memory C}
      → a ≡ b
      → x ≡ y
      → Path (Option (ℤ × Output × Memory C)) (some (pos a, x, m)) (some (pos b, y, m))
  counted e e' = cc

  parse_item-IsUnknown :
      (num : Numerals) (items : List (ArgumentItem C)) (arg : List ℕ) (args : List (List ℕ))
      → (m : Memory C) → IsUnknown items arg
      → parse_item num items (arg ∷ args) m ≡ some (minus_one, m)
  unfolding parse_item
  parse_item-IsUnknown num items arg args m h = parse_items-IsUnknown num items arg (arg ∷ args) m h

  parse_loop-cons :
      (num : Numerals) (items : List (ArgumentItem C)) (arg : List ℕ) (args : List (List ℕ))
      → (n : ℕ) (output output' : Output) (m : Memory C) → IsUnknown items arg
      → put output n arg ≡ some output'
      → parse_loop num items 0 (arg ∷ args) n output m
        ≡ parse_loop num items 0 args (suc n) output' m
  unfolding parse_loop
  parse_loop-cons num items arg args n output output' m h e =
      ground (arith, parse_item-IsUnknown num items arg args m h)

  parse_loop-IsUnknown :
      (num : Numerals) (items : List (ArgumentItem C)) (args : List (List ℕ))
      → (front back : List (Option (List ℕ))) (n : ℕ) (m : Memory C) → n ≡ length front
      → All (IsUnknown items) args
      → parse_loop num items 0 args n (unfilled front args back) m
        ≡ some (pos (n + length args), filled front args back, m)
  unfolding parse_loop
  parse_loop-IsUnknown num items [] front back n m e h = ground arith
  parse_loop-IsUnknown num items (arg ∷ args) front back n m e h =
      parse_loop-cons num items arg args n (unfilled front (arg ∷ args) back)
        (unfilled (front ++ some arg ∷ []) args back) m h.0 (put-unfilled front arg args n back e)
      ∙ parse_loop-IsUnknown num items args (front ++ some arg ∷ []) back (suc n) m
          (ap suc e ∙ sym (length-append_one front (some arg))) h.1
      ∙ counted (omega arith) (filled-cons front arg args back)

  -- The result of eargs_parse when argv has no argument of the table.
  abbrev pub LeftOver :
      List (List ℕ)
      → List (ArgumentItem C)
      → Memory C
      → Option (ℤ × Output × Table C × Memory C)
      → Type 0
  LeftOver args items m r =
      r ≡ some (pos (length args), some (map some args ++ none ∷ []), clear (live items), m)

  finish-LeftOver :
      (args : List (List ℕ)) (items : List (ArgumentItem C)) (m : Memory C)
      → (r : Option (ℤ × Output × Memory C))
      → r ≡ some (pos (length args), some (map some args ++ none ∷ []), m)
      → LeftOver args items m (finish (live items) r)
  unfolding finish
  finish-LeftOver args items m r e = ground arith

  -- If no argument of the table is named and the array has one place for each string of argv,
  -- eargs_parse returns the number of the arguments, the array has them in their order and NULL at
  -- its end, nothing is stored elsewhere, and the table is cleared.
  pub parse-LeftOver :
      (num : Numerals) (items : List (ArgumentItem C)) (program : List ℕ) (args : List (List ℕ))
      → (output : List (Option (List ℕ))) (m : Memory C) → All (IsUnknown items) args
      → length output ≡ suc (length args)
      → LeftOver args items m (parse num (program ∷ args) (some output) (live items) m)
  unfolding parse parse_args
  parse-LeftOver num items program args output m h e = ground (
    arith,
    reset-exact (length args) output e,
    finish-LeftOver args items m (parse_loop num items 0 args 0 (unfilled [] args (none ∷ [])) m) (
        parse_loop-IsUnknown num items args [] (none ∷ []) 0 m refl h ∙ counted (omega arith) refl),
  )
