-- ===== src/Tests/Acl.antt =====
-- The theorems about access lists at concrete inputs.
use network_gamepads.Base.{
  All, map, ℕ, pos, minus_one, ℤ, List, [], ◌∷◌, ◌++◌, ◌≡◌, refl, some, if◌then◌else◌, arith,
}
use network_gamepads.Acl.{
  Evdev, malformed, read_line, hash, dot, set_codes, set_whitelist, set_blacklist,
}
use network_gamepads.Acl.Listed.{Item, line_of, IsGood, listed, Applied, set_lists-listed}
use network_gamepads.Acl.Malformed.{set_codes-malformed}
use network_gamepads.Tests.System.{two_letters}

-- The type K, whose number is 1, with a code for each letter.
abbrev first_letter : List ℕ → ℤ
first_letter [] = minus_one
first_letter (x ∷ xs) = pos x

abbrev pub letters : Evdev
letters = record { type_from_name = λ name. pos 1; code_from_name = λ type name. first_letter name }

-- `K.A`, `# K` and an empty line, each with its line end.
abbrev key_a : List ℕ
key_a = 0x4B ∷ dot ∷ 0x41 ∷ 10 ∷ []

abbrev remark : List ℕ
remark = hash ∷ 0x20 ∷ 0x4B ∷ 10 ∷ []

abbrev blank : List ℕ
blank = 10 ∷ []

-- `# K` and `K.A` as items.
abbrev pub two_items : List Item
two_items = Item.remark (0x20 ∷ 0x4B ∷ 10 ∷ []) ∷ Item.code (0x4B ∷ []) (0x41 ∷ []) ∷ []

blank-malformed : read_line blank ≡ some malformed
unfolding read_line
blank-malformed = refl

pub two_items-IsGood : All (IsGood letters) two_items
two_items-IsGood = (
  tt,
  (
    (
      1,
      0x41,
      refl,
      refl,
      omega arith,
      omega arith,
      omega arith,
      omega arith,
      omega arith,
      omega arith,
    ),
    tt,
  ),
)

set_lists-listed_example :
    Applied 1 0x41
      (if listed letters 1 0x41 two_items then 1 else 0)
      (set_whitelist letters (some (map line_of two_items)) two_letters)
    × Applied 1 0x41
        (if listed letters 1 0x41 two_items then 0 else two_letters.whitelist 1 0x41)
        (set_blacklist letters (some (map line_of two_items)) two_letters)
set_lists-listed_example = set_lists-listed letters two_items two_letters 1 0x41 two_items-IsGood

set_codes-malformed_example :
    set_codes letters 1 ((remark ∷ []) ++ blank ∷ key_a ∷ []) (λ type code. 0)
    ≡ set_codes letters 1 (remark ∷ []) (λ type code. 0)
set_codes-malformed_example =
    set_codes-malformed letters 1 (remark ∷ []) blank (key_a ∷ []) (λ type code. 0) blank-malformed
