-- ===== src/Acl/Read.antt =====
-- What the lines that read_line takes for comments and entries do to the table
-- (server/input-server.c).
use network_gamepads.Base.{
  ℕ, ◌<◌, ◌≡◌, refl, ◌⊎◌, inl, inr, ℤ, pos, negsuc, Bool, false, ◌&&◌, ◌||◌, List, [], ◌∷◌, Option,
  none, some, ◌==◌, if◌then◌else◌, arith, All,
}
use network_gamepads.Server.State.{ev_max, key_max}
use network_gamepads.Acl.{
  Evdev, Line, comment, malformed, entry, go_on, read_line, is_star, allow, set_line, set_type,
  set_code, set_codes_round, set_codes,
}

-- The line is a comment, or names a code of a type, both with a place in the table.
abbrev pub IsRead : Evdev → List ℕ → Type 0
IsRead ev line =
    (read_line line ≡ some comment)
    ⊎ ((type name : List ℕ) × (t c : ℕ) × (read_line line ≡ some (entry type name))
        × (is_star name ≡ false)
        × (ev.type_from_name type ≡ pos t)
        × (ev.code_from_name t name ≡ pos c)
        × (t < ev_max)
        × (c < key_max))

abbrev is_code : ℕ → ℤ → Bool
is_code c (pos n) = c == n
is_code c (negsuc n) = false

abbrev pub is_name : Evdev → ℕ → ℕ → List ℕ → ℤ → Bool
is_name ev t c name (pos type) = (t == type) && is_code c (ev.code_from_name type name)
is_name ev t c name (negsuc n) = false

-- A line that names the code of the type.
abbrev pub names : Evdev → ℕ → ℕ → Option Line → Bool
names ev t c (some (entry type name)) = is_name ev t c name (ev.type_from_name type)
names ev t c (some comment) = false
names ev t c (some malformed) = false
names ev t c none = false

-- One of the lines names it.
abbrev pub read_listed : Evdev → ℕ → ℕ → List (List ℕ) → Bool
read_listed ev t c [] = false
read_listed ev t c (line ∷ lines) = names ev t c (read_line line) || read_listed ev t c lines

-- The loop goes on with a table that has the value where the line says so.
abbrev Goes : Evdev → ℕ → List ℕ → (ℕ → ℕ → ℕ) → Type 0
Goes ev value line table =
    (table' : ℕ → ℕ → ℕ) × (set_codes_round ev value line table ≡ some (go_on table'))
    × ((t c : ℕ) → table' t c ≡ (if names ev t c (read_line line) then value else table t c))

set_codes_round-comment :
    (ev : Evdev) (value : ℕ) (line : List ℕ) (table : ℕ → ℕ → ℕ)
    → read_line line ≡ some comment
    → Goes ev value line table
unfolding set_codes_round set_line
set_codes_round-comment ev value line table h = (table, ground arith, λ t c. ground arith)

set_codes_round-entry :
    (ev : Evdev) (value : ℕ) (line type name : List ℕ) (t c : ℕ) (table : ℕ → ℕ → ℕ)
    → read_line line ≡ some (entry type name)
    → is_star name ≡ false
    → ev.type_from_name type ≡ pos t
    → ev.code_from_name t name ≡ pos c
    → t < ev_max
    → c < key_max
    → Goes ev value line table
unfolding set_codes_round set_line set_type set_code
set_codes_round-entry ev value line type name t c table h star type_eq code_eq lt lc =
    (allow t c value table, ground arith, λ t' c'. ground arith)

set_codes_round-IsRead :
    (ev : Evdev) (value : ℕ) (line : List ℕ) (table : ℕ → ℕ → ℕ)
    → IsRead ev line
    → Goes ev value line table
set_codes_round-IsRead ev value line table (inl h) = set_codes_round-comment ev value line table h
set_codes_round-IsRead ev value line table (inr (type, name, t, c, h, star, e, e', lt, lc)) =
    set_codes_round-entry ev value line type name t c table h star e e' lt lc

-- The table that the lines leave behind.
abbrev pub Leaves : Evdev → ℕ → List (List ℕ) → (ℕ → ℕ → ℕ) → Type 0
Leaves ev value lines table =
    (table' : ℕ → ℕ → ℕ) × (set_codes ev value lines table ≡ some (pos 1, table'))
    × ((t c : ℕ) → table' t c ≡ (if read_listed ev t c lines then value else table t c))

or-else :
    (a b : Bool) (x y z w : ℕ)
    → x ≡ (if b then z else y)
    → y ≡ (if a then z else w)
    → x ≡ (if a || b then z else w)
or-else a b x y z w e e' = ground arith

pub set_codes-Leaves :
    (ev : Evdev) (value : ℕ) (lines : List (List ℕ)) (table : ℕ → ℕ → ℕ)
    → All (IsRead ev) lines
    → Leaves ev value lines table
unfolding set_codes
set_codes-Leaves ev value [] table good = (table, refl, λ t c. refl)
set_codes-Leaves ev value (line ∷ lines) table good =
    let (table', round, says) = set_codes_round-IsRead ev value line table good.0 in
    let (table'', rest, tells) = set_codes-Leaves ev value lines table' good.1 in
    (
      table'',
      ground arith,
      λ t c.
          or-else (names ev t c (read_line line)) (read_listed ev t c lines) (table'' t c)
            (table' t c) value (table t c) (tells t c) (says t c),
    )
