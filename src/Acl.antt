-- ===== src/Acl.antt =====
-- Access lists: setCodeList, setWhitelist and setBlacklist of server/input-server.c. A file is the
-- list of its lines as getline gives them, with their line ends. The names of types and codes are
-- libevdev's, a parameter.
pub mod Read
pub mod Listed
pub mod Malformed
use network_gamepads.Base.{
  ℕ, zero, suc, ◌+◌, ℤ, pos, negsuc, minus_one, Bool, true, false, ◌&&◌, ◌||◌, List, [], ◌∷◌,
  Option, none, some, leb, ◌==◌, if◌then◌else◌,
}
use network_gamepads.Server.State.{Config, ev_max, key_max}

-- libevdev_event_type_from_name and libevdev_event_code_from_name; a negative number is no name.
pub record Evdev : Type 0 where
  pub type_from_name : List ℕ → ℤ
  pub code_from_name : ℕ → List ℕ → ℤ

abbrev pub hash : ℕ
hash = 0x23

abbrev pub dot : ℕ
dot = 0x2E

abbrev pub star : ℕ
star = 0x2A

-- line[strlen(line) - 1] = 0; `none` is the write before the start of an empty line.
chop : List ℕ → Option (List ℕ)
chop [] = none
chop (x ∷ []) = some []
chop (x ∷ y ∷ xs) = elim (chop (y ∷ xs)) [ none ↦ none | some rest ↦ some (x ∷ rest) ]

-- strtok with the delimiter ".": the dots in front are skipped, and the token ends before the next.
skip_dots : List ℕ → List ℕ
skip_dots [] = []
skip_dots (x ∷ xs) = let rest = skip_dots xs in if x == dot then rest else x ∷ xs

-- The token and what follows the dot behind it.
split_dot : List ℕ → List ℕ × List ℕ
split_dot [] = ([], [])
split_dot (x ∷ xs) =
    let (token, rest) = split_dot xs in if x == dot then ([], xs) else (x ∷ token, rest)

strtok : List ℕ → Option (List ℕ × List ℕ)
unfolding skip_dots split_dot
strtok line = elim (skip_dots line) [ [] ↦ none | x ∷ xs ↦ some (split_dot (x ∷ xs)) ]

-- What a line says: a comment, nothing that is well formed, or the two names.
pub data Line : Type 0 where
  comment malformed : Line
  entry : List ℕ → List ℕ → Line

tokens : List ℕ → Line
unfolding strtok
tokens text = elim (strtok text) [
  | none ↦ malformed
  | some (type, rest) ↦ elim (strtok rest) [
    | none ↦ malformed
    | some (code, more) ↦ entry type code
  ]
]

-- `none` is undefined behaviour.
unfoldable pub read_line : List ℕ → Option Line
unfolding chop tokens
read_line [] = none
read_line (x ∷ xs) =
    if x == hash
    then some comment
    else elim (chop (x ∷ xs)) [ none ↦ none | some text ↦ some (tokens text) ]

-- The table with one entry set.
abbrev pub allow : ℕ → ℕ → ℕ → (ℕ → ℕ → ℕ) → ℕ → ℕ → ℕ
allow type code value table t c = if (t == type) && (c == code) then value else table t c

-- memset(config->whitelist[itype], 1, sizeof(int) * EV_KEY) fills one int, since EV_KEY is 1.
abbrev pub all_ones : ℕ
all_ones = 0x01010101

-- What becomes of the table and of the loop: it goes on, or ends with a status.
pub data Next : Type 0 where
  go_on : (ℕ → ℕ → ℕ) → Next
  stop : ℤ → (ℕ → ℕ → ℕ) → Next

unfoldable pub is_star : List ℕ → Bool
is_star [] = false
is_star (x ∷ xs) = x == star

unfoldable pub set_code : ℕ → ℤ → ℕ → (ℕ → ℕ → ℕ) → Option Next
set_code type (negsuc k) value table = some (stop minus_one table)
set_code type (pos code) value table =
    if leb key_max code then none else some (go_on (allow type code value table))

unfoldable pub set_type : Evdev → ℤ → List ℕ → ℕ → (ℕ → ℕ → ℕ) → Option Next
unfolding set_code is_star
set_type ev (negsuc k) name value table = some (stop minus_one table)
set_type ev (pos type) name value table =
    if is_star name
    then (if leb ev_max type then none else some (go_on (allow type 0 all_ones table)))
    else if leb ev_max type
    then none
    else set_code type (ev.code_from_name type name) value table

-- A line that is not well formed ends the loop, with the status 1 of success.
unfoldable pub set_line : Evdev → ℕ → Line → (ℕ → ℕ → ℕ) → Option Next
unfolding set_type
set_line ev value comment table = some (go_on table)
set_line ev value malformed table = some (stop (pos 1) table)
set_line ev value (entry type code) table = set_type ev (ev.type_from_name type) code value table

-- One round of the loop over getline.
unfoldable pub set_codes_round : Evdev → ℕ → List ℕ → (ℕ → ℕ → ℕ) → Option Next
unfolding read_line set_line
set_codes_round ev value line table = elim (read_line line) [
  | none ↦ none
  | some l ↦ set_line ev value l table
]

unfoldable pub set_codes : Evdev → ℕ → List (List ℕ) → (ℕ → ℕ → ℕ) → Option (ℤ × (ℕ → ℕ → ℕ))
set_codes ev value [] table = some (pos 1, table)
set_codes ev value (line ∷ lines) table = elim (set_codes_round ev value line table) [
  | none ↦ none
  | some (go_on table') ↦ set_codes ev value lines table'
  | some (stop status table') ↦ some (status, table')
]

-- setCodeList; a file that cannot be opened is `none`.
unfoldable pub set_code_list : Evdev → ℕ → Option (List (List ℕ)) → Config → Option (ℤ × Config)
set_code_list ev value none config = some (minus_one, config)
set_code_list ev value (some lines) config = elim (set_codes ev value lines config.whitelist) [
  | none ↦ none
  | some (status, table) ↦ some (status, record config { whitelist = table })
]

unfoldable pub set_whitelist : Evdev → Option (List (List ℕ)) → Config → Option (ℤ × Config)
set_whitelist ev file config =
    set_code_list ev 1 file (record config { whitelist = λ type code. 0 })

unfoldable pub set_blacklist : Evdev → Option (List (List ℕ)) → Config → Option (ℤ × Config)
set_blacklist ev file config = set_code_list ev 0 file config
