-- ===== src/Settings.antt =====
-- What the programs take from their surroundings when they start: the defaults of common/protocol.h
-- and the environment.
use network_gamepads.Base.{List, [], ◌∷◌, ℕ, ℤ, Option, none, some, text}
use network_gamepads.Args.{Table}

unfoldable pub default_password : List ℕ
default_password = text "foobar"

unfoldable pub default_host : List ℕ
default_host = text "::"

unfoldable pub default_port : List ℕ
default_port = text "9292"

-- getenv, and getaddrinfo for a host and a port: the addresses found, or none.
pub record World : Type 0 where
  pub env : List ℕ → Option (List ℕ)
  pub resolve : List ℕ → List ℕ → Option (List ℕ)

-- getenv(name) ? getenv(name) : value
unfoldable pub getenv_or : World → List ℕ → List ℕ → List ℕ
getenv_or world name value = elim (world.env name) [ none ↦ value | some v ↦ v ]

-- The fields of config in which eargs_parse stores a string.
abbrev pub host : ℕ
host = 0

abbrev pub port : ℕ
port = 1

abbrev pub password : ℕ
password = 2

abbrev pub dev_name : ℕ
dev_name = 3

-- The calls that add the arguments, one after the other; their results are not looked at.
unfoldable pub add_all :
    {C : Type 0} → List (Table C → Option (ℤ × Table C)) → Table C → Option (Table C)
add_all [] table = some table
add_all (add ∷ rest) table = elim (add table) [
  | none ↦ none
  | some (status, table') ↦ add_all rest table'
]
