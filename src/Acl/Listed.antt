-- ===== src/Acl/Listed.antt =====
-- Access lists that are well formed, as the text of their lines (server/input-server.c).
use network_gamepads.Base.{
  ℕ, ◌<◌, ◌≡◌, ◌≢◌, refl, sym, ap, ◌∙◌, inl, inr, ℤ, pos, Bool, false, ◌||◌, List, [], ◌∷◌, ◌++◌,
  Option, none, some, map, if◌then◌else◌, arith, All,
}
use mathlib.Core.List.{append_assoc}
use network_gamepads.Server.State.{Config, ev_max, key_max}
use network_gamepads.Acl.{
  Evdev, comment, entry, chop, skip_dots, split_dot, strtok, tokens, read_line, is_star, set_codes,
  set_code_list, set_whitelist, set_blacklist,
}
use network_gamepads.Acl.Read.{IsRead, is_name, names, read_listed, set_codes-Leaves}

-- What a line says: nothing, with the text of a comment, or a type and a code by their names.
pub data Item : Type 0 where
  remark : List ℕ → Item
  code : List ℕ → List ℕ → Item

-- The line: `#` and the text, or the names with a dot between them and a line feed.
abbrev pub line_of : Item → List ℕ
line_of (remark text) = 0x23 ∷ text
line_of (code type name) = type ++ 0x2E ∷ (name ++ 10 ∷ [])

abbrev NoDot : List ℕ → Type 0
NoDot = All (λ x. x ≢ 0x2E)

-- There is a first character, and it is another one.
abbrev pub OpensWithout : ℕ → List ℕ → Type 0
OpensWithout x [] = ⊥
OpensWithout x (y ∷ ys) = y ≢ x

abbrev pub IsGood : Evdev → Item → Type 0
IsGood ev (remark text) = Unit
IsGood ev (code type name) =
    (t : ℕ) × (c : ℕ) × (ev.type_from_name type ≡ pos t)
    × (ev.code_from_name t name ≡ pos c)
    × (t < ev_max)
    × (c < key_max)
    × NoDot type
    × NoDot name
    × OpensWithout 0x23 type
    × OpensWithout 0x2A name

-- One of the items names the code of the type.
abbrev pub listed : Evdev → ℕ → ℕ → List Item → Bool
listed ev t c [] = false
listed ev t c (remark text ∷ items) = listed ev t c items
listed ev t c (code type name ∷ items) =
    is_name ev t c name (ev.type_from_name type) || listed ev t c items

chop-append : (xs : List ℕ) (x : ℕ) → chop (xs ++ x ∷ []) ≡ some xs
unfolding chop
chop-append [] x = refl
chop-append (y ∷ []) x = refl
chop-append (y ∷ z ∷ zs) x = ground (arith, chop-append (z ∷ zs) x)

split_dot-append : (xs ys : List ℕ) → NoDot xs → split_dot (xs ++ 0x2E ∷ ys) ≡ (xs, ys)
unfolding split_dot
split_dot-append [] ys h = ground arith
split_dot-append (x ∷ xs) ys h = ground (arith, split_dot-append xs ys h.1)

split_dot-NoDot : (xs : List ℕ) → NoDot xs → split_dot xs ≡ (xs, [])
unfolding split_dot
split_dot-NoDot [] h = refl
split_dot-NoDot (x ∷ xs) h = ground (arith, split_dot-NoDot xs h.1)

strtok-first :
    (x : ℕ) (xs ys : List ℕ) → NoDot (x ∷ xs) → strtok ((x ∷ xs) ++ 0x2E ∷ ys) ≡ some (x ∷ xs, ys)
unfolding strtok skip_dots
strtok-first x xs ys h = ground (arith, split_dot-append (x ∷ xs) ys h)

strtok-last : (x : ℕ) (xs : List ℕ) → NoDot (x ∷ xs) → strtok (x ∷ xs) ≡ some (x ∷ xs, [])
unfolding strtok skip_dots
strtok-last x xs h = ground (arith, split_dot-NoDot (x ∷ xs) h)

tokens-entry :
    (type name : List ℕ)
    → NoDot type
    → NoDot name
    → OpensWithout 0x23 type
    → OpensWithout 0x2A name
    → tokens (type ++ 0x2E ∷ name) ≡ entry type name
unfolding tokens
tokens-entry [] name h h' o o' = absurd o
tokens-entry (x ∷ xs) [] h h' o o' = absurd o'
tokens-entry (x ∷ xs) (y ∷ ys) h h' o o' =
    ground (arith, strtok-first x xs (y ∷ ys) h, strtok-last y ys h')

read_line-chop :
    (x : ℕ) (xs text : List ℕ)
    → x ≢ 0x23
    → chop (x ∷ xs) ≡ some text
    → read_line (x ∷ xs) ≡ some (tokens text)
unfolding read_line
read_line-chop x xs text h e = ground arith

read_line-code :
    (type name : List ℕ)
    → NoDot type
    → NoDot name
    → OpensWithout 0x23 type
    → OpensWithout 0x2A name
    → read_line (line_of (code type name)) ≡ some (entry type name)
read_line-code [] name h h' o o' = absurd o
read_line-code (x ∷ xs) name h h' o o' =
    read_line-chop x (xs ++ 0x2E ∷ (name ++ 10 ∷ [])) ((x ∷ xs) ++ 0x2E ∷ name) o (
      ap chop (sym (append_assoc (x ∷ xs) (0x2E ∷ name) (10 ∷ [])))
      ∙ chop-append ((x ∷ xs) ++ 0x2E ∷ name) 10)
    ∙ ap some (tokens-entry (x ∷ xs) name h h' o o')

read_line-remark : (text : List ℕ) → read_line (line_of (remark text)) ≡ some comment
unfolding read_line
read_line-remark text = ground arith

OpensWithout-is_star : (name : List ℕ) → OpensWithout 0x2A name → is_star name ≡ false
unfolding is_star
OpensWithout-is_star [] o = absurd o
OpensWithout-is_star (x ∷ xs) o = ground arith

IsGood-IsRead : (ev : Evdev) (item : Item) → IsGood ev item → IsRead ev (line_of item)
IsGood-IsRead ev (remark text) good = inl (read_line-remark text)
IsGood-IsRead ev (code type name) (t, c, et, ec, lt, lc, h, h', o, o') = inr (
  type,
  name,
  t,
  c,
  read_line-code type name h h' o o',
  OpensWithout-is_star name o',
  et,
  ec,
  lt,
  lc,
)

lines-IsRead :
    (ev : Evdev) (items : List Item) → All (IsGood ev) items → All (IsRead ev) (map line_of items)
lines-IsRead ev [] good = tt
lines-IsRead ev (i ∷ items) good = (IsGood-IsRead ev i good.0, lines-IsRead ev items good.1)

read_listed-listed :
    (ev : Evdev) (t c : ℕ) (items : List Item)
    → All (IsGood ev) items
    → read_listed ev t c (map line_of items) ≡ listed ev t c items
read_listed-listed ev t c [] good = refl
read_listed-listed ev t c (remark text ∷ items) good =
    ground (arith, read_line-remark text, read_listed-listed ev t c items good.1)
read_listed-listed ev t c (code type name ∷ items) ((t', c', et, ec, lt, lc, h, h', o, o'), good) =
    ap (λ l. names ev t c l || read_listed ev t c (map line_of items))
      (read_line-code type name h h' o o')
    ∙ ap (λ b. is_name ev t c name (ev.type_from_name type) || b)
        (read_listed-listed ev t c items good)

-- The table that the lines leave behind.
abbrev pub Listed : Evdev → ℕ → List Item → (ℕ → ℕ → ℕ) → Type 0
Listed ev value items table =
    (table' : ℕ → ℕ → ℕ) × (set_codes ev value (map line_of items) table ≡ some (pos 1, table'))
    × ((t c : ℕ) → table' t c ≡ (if listed ev t c items then value else table t c))

pub set_codes-Listed :
    (ev : Evdev) (value : ℕ) (items : List Item) (table : ℕ → ℕ → ℕ)
    → All (IsGood ev) items
    → Listed ev value items table
set_codes-Listed ev value items table good =
    let (table', ends, says) =
      set_codes-Leaves ev value (map line_of items) table (lines-IsRead ev items good) in
    (
      table',
      ends,
      λ t c.
          says t c
          ∙ ap (λ b. if b then value else table t c) (read_listed-listed ev t c items good),
    )

-- The file was read to its end, and the entry of the table is v.
abbrev pub Applied : ℕ → ℕ → ℕ → Option (ℤ × Config) → Type 0
Applied t c v none = ⊥
Applied t c v (some (status, config)) = (status ≡ pos 1) × (config.whitelist t c ≡ v)

set_whitelist-listed :
    (ev : Evdev) (items : List Item) (config : Config) (t c : ℕ)
    → All (IsGood ev) items
    → Applied t c
        (if listed ev t c items then 1 else 0)
        (set_whitelist ev (some (map line_of items)) config)
unfolding set_whitelist set_code_list
set_whitelist-listed ev items config t c good =
    let (table, e, says) = set_codes-Listed ev 1 items (λ type code. 0) good in
    ground (arith, says t c)

set_blacklist-listed :
    (ev : Evdev) (items : List Item) (config : Config) (t c : ℕ)
    → All (IsGood ev) items
    → Applied t c
        (if listed ev t c items then 0 else config.whitelist t c)
        (set_blacklist ev (some (map line_of items)) config)
unfolding set_blacklist set_code_list
set_blacklist-listed ev items config t c good =
    let (table, e, says) = set_codes-Listed ev 0 items config.whitelist good in
    ground (arith, says t c)

-- A list whose lines are comments, which start with `#`, or have the form `type.code` with a line end,
-- where libevdev has numbers inside of the table for both names, neither name has a dot, the first
-- does not start with `#` and the second not with a star, is read to its end. As a whitelist it allows
-- the codes that it names and no other, whatever was allowed before; as a blacklist it forbids the
-- codes that it names and leaves every other as it was.
pub set_lists-listed :
    (ev : Evdev) (items : List Item) (config : Config) (t c : ℕ)
    → All (IsGood ev) items
    → Applied t c
        (if listed ev t c items then 1 else 0)
        (set_whitelist ev (some (map line_of items)) config)
      × Applied t c
          (if listed ev t c items then 0 else config.whitelist t c)
          (set_blacklist ev (some (map line_of items)) config)
set_lists-listed ev items config t c good =
    (set_whitelist-listed ev items config t c good, set_blacklist-listed ev items config t c good)
