-- ===== src/Osc/Parse/Encoded.antt =====
-- osc_parse of osc/osc-xlater.c on messages as OSC lays them out.
use network_gamepads.Base.{
  ℕ, zero, suc, ◌+◌, ◌-◌, ◌%◌, take, take-append_length, ◌≤◌, ◌<◌, ◌≡◌, ◌≢◌, refl, sym, ap, subst,
  ◌∙◌, true, List, [], ◌∷◌, ◌++◌, Option, none, some, arith, All, length, drop, replicate,
  get_elem?, get_elem?-drop, length-append, length-replicate, drop-drop,
}
use mathlib.Core.List.{append_assoc}
use network_gamepads.Osc.Parse.{
  comma, nextdword, has_nul, strlen, OscMessage, accept, parse_format, osc_parse,
}

abbrev pub NoNul : List ℕ → Type 0
NoNul = All (λ x. x ≢ 0)

-- How many zeros follow a string of n characters: one to four, up to a multiple of four bytes.
abbrev pub zeros : ℕ → ℕ
zeros n = 4 - n % 4

-- A string of OSC: its characters and its zeros.
abbrev pub pad : List ℕ → List ℕ
pad s = s ++ replicate (zeros (length s)) 0

-- A message: the path, the types of the arguments behind a comma, and the arguments.
abbrev pub encode : List ℕ → List ℕ → List ℕ → List ℕ
encode path types args = pad path ++ (pad (comma ∷ types) ++ args)

pub nextdword_bounds : (a : ℕ) → a ≤ nextdword a
unfolding nextdword
nextdword_bounds a = ground arith

nextdword-zeros : (n : ℕ) → nextdword (n + 1) ≡ n + zeros n
unfolding nextdword
nextdword-zeros n = ground arith

strlen-zeros :
    (s rest : List ℕ) (k : ℕ)
    → NoNul s
    → 0 < k
    → strlen ((s ++ replicate k 0) ++ rest) ≡ some (length s)
unfolding strlen
strlen-zeros [] rest zero h p = absurd (omega arith)
strlen-zeros [] rest (suc k) h p = refl
strlen-zeros (x ∷ s) rest k h p = ground (arith, strlen-zeros s rest k h.1 p)

pad-pos : (s : List ℕ) → 0 < zeros (length s)
pad-pos s = omega arith

pub strlen-pad : (s rest : List ℕ) → NoNul s → strlen (pad s ++ rest) ≡ some (length s)
strlen-pad s rest h = strlen-zeros s rest (zeros (length s)) h (pad-pos s)

pub length-pad : (s : List ℕ) → length (pad s) ≡ nextdword (length s + 1)
length-pad s = omega (
  arith,
  length-append s (replicate (zeros (length s)) 0),
  length-replicate {A = ℕ} (zeros (length s)) 0,
  nextdword-zeros (length s),
)

pub drop-length : (s rest : List ℕ) (n : ℕ) → length s ≡ n → drop n (s ++ rest) ≡ rest
drop-length [] rest zero e = refl
drop-length [] rest (suc n) e = absurd (omega arith)
drop-length (x ∷ s) rest zero e = absurd (omega arith)
drop-length (x ∷ s) rest (suc n) e = drop-length s rest n (omega arith)

has_nul-zeros :
    (s rest : List ℕ) (k len : ℕ)
    → 0 < k
    → length s < len
    → has_nul ((s ++ replicate k 0) ++ rest) len ≡ true
unfolding has_nul
has_nul-zeros s rest k zero p h = absurd (omega arith)
has_nul-zeros [] rest zero (suc len) p h = absurd (omega arith)
has_nul-zeros [] rest (suc k) (suc len) p h = refl
has_nul-zeros (x ∷ s) rest k (suc len) p h =
    ground (arith, has_nul-zeros s rest k len p (omega arith))

-- The result for a message whose format stands at `p`.
abbrev pub found : List ℕ → ℕ → Option (Option OscMessage)
found types p =
    some (some (record { num_args = length types; args = p + length (pad (comma ∷ types)) }))

parse_format-pad :
    (mem types rest : List ℕ) (len p : ℕ)
    → NoNul types
    → drop p mem ≡ pad (comma ∷ types) ++ rest
    → p + length (pad (comma ∷ types)) ≤ len
    → parse_format mem len p ≡ found types p
unfolding parse_format accept
parse_format-pad mem types rest len p h at_p fits =
    let n : ℕ = length types in
    let measured : strlen (drop p mem) ≡ some (suc n) =
      ap strlen at_p ∙ strlen-pad (comma ∷ types) rest (omega arith, h) in
    let first : get_elem? mem p ≡ some comma =
      get_elem?-drop p 0 p mem (omega arith) ∙ ap (λ (m : List ℕ). get_elem? m 0) at_p in
    let behind : drop (p + 1) mem ≡ (types ++ replicate (zeros (suc n)) 0) ++ rest =
      sym (drop-drop 1 p (p + 1) mem refl) ∙ ap (drop 1) at_p in
    let counted : strlen (drop (p + 1) mem) ≡ some n =
      ap strlen behind ∙ strlen-zeros types rest (zeros (suc n)) h (pad-pos (comma ∷ types)) in
    let size : length (pad (comma ∷ types)) ≡ nextdword (suc n + 1) = length-pad (comma ∷ types) in
    ground (arith, nextdword_bounds (suc n + 1))

osc_parse-strlen :
    (mem : List ℕ) (len n : ℕ)
    → has_nul mem len ≡ true
    → strlen mem ≡ some n
    → osc_parse mem len ≡ parse_format mem len (nextdword (n + 1))
unfolding osc_parse
osc_parse-strlen mem len n h e = ground arith

pub encode_memory :
    (path types args stale : List ℕ)
    → encode path types args ++ stale ≡ pad path ++ (pad (comma ∷ types) ++ (args ++ stale))
encode_memory path types args stale =
    append_assoc (pad path) (pad (comma ∷ types) ++ args) stale
    ∙ ap (◌++◌ (pad path)) (append_assoc (pad (comma ∷ types)) args stale)

pub take-pad : (path rest : List ℕ) → take (length path) (pad path ++ rest) ≡ path
take-pad path rest =
    let filler : List ℕ = replicate (zeros (length path)) 0 in
    ap (take (length path)) (append_assoc path filler rest)
    ∙ take-append_length path (filler ++ rest)

pub length-encode : (path types args : List ℕ) → 0 < length (encode path types args)
length-encode path types args = omega (
  arith,
  length-append (pad path) (pad (comma ∷ types) ++ args),
  length-pad path,
  nextdword_bounds (length path + 1),
)

pub drop-encode :
    (path types args stale : List ℕ)
    → drop (length (pad path) + length (pad (comma ∷ types))) (encode path types args ++ stale)
      ≡ args ++ stale
drop-encode path types args stale =
    let p : ℕ = length (pad path) in
    let n : ℕ = length (pad (comma ∷ types)) in
    ap (drop (p + n)) (encode_memory path types args stale)
    ∙ sym (drop-drop n p (p + n) (pad path ++ (pad (comma ∷ types) ++ (args ++ stale))) refl)
    ∙ ap (drop n) (drop-length (pad path) (pad (comma ∷ types) ++ (args ++ stale)) p refl)
    ∙ drop-length (pad (comma ∷ types)) (args ++ stale) n refl

-- Of a message that is a path, a comma with the types and the arguments, where path and types have
-- no zero byte and each of the two strings is filled with one to four zeros up to a multiple of four
-- bytes, osc_parse finds the path, the number of arguments and the place of the arguments, whatever
-- lies behind the message in the buffer.
pub osc_parse-encode :
    (path types args stale : List ℕ)
    → NoNul path
    → NoNul types
    → osc_parse (encode path types args ++ stale) (length (encode path types args))
      ≡ found types (length (pad path))
osc_parse-encode path types args stale h h' =
    let mem : List ℕ = encode path types args ++ stale in
    let len : ℕ = length (encode path types args) in
    let rest : List ℕ = args ++ stale in
    let tail : List ℕ = pad (comma ∷ types) ++ rest in
    let p : ℕ = length (pad path) in
    let split : mem ≡ pad path ++ tail = encode_memory path types args stale in
    let size : len ≡ p + (length (pad (comma ∷ types)) + length args) =
      length-append (pad path) (pad (comma ∷ types) ++ args)
      ∙ ap (◌+◌ p) (length-append (pad (comma ∷ types)) args) in
    let at_p : nextdword (length path + 1) ≡ p = sym (length-pad path) in
    let terminated : has_nul mem len ≡ true =
      ap (λ (m : List ℕ). has_nul m len) split
      ∙ has_nul-zeros path tail (zeros (length path)) len (pad-pos path)
          (omega (arith, nextdword_bounds (length path + 1))) in
    osc_parse-strlen mem len (length path) terminated (ap strlen split ∙ strlen-pad path tail h)
    ∙ ap (parse_format mem len) at_p
    ∙ parse_format-pad mem types rest len p h'
        (ap (drop p) split ∙ drop-length (pad path) tail p refl) (omega arith)

-- The message is accepted, and all arguments that it announces are behind its end.
abbrev pub Unreceived : ℕ → ℕ → Option (Option OscMessage) → Type 0
Unreceived n len none = ⊥
Unreceived n len (some none) = ⊥
Unreceived n len (some (some m)) = (m.num_args ≡ n) × (m.args ≡ len)

-- A message that has none of the arguments it announces is accepted, and the arguments are taken
-- from behind the bytes received.
pub osc_parse-Unreceived :
    (path types stale : List ℕ)
    → NoNul path
    → NoNul types
    → Unreceived
        (length types)
        (length (encode path types []))
        (osc_parse (encode path types [] ++ stale) (length (encode path types [])))
osc_parse-Unreceived path types stale h h' =
    subst (Unreceived (length types) (length (encode path types [])))
      (sym (osc_parse-encode path types [] stale h h'))
      (
        refl,
        omega (
          arith,
          length-append (pad path) (pad (comma ∷ types) ++ []),
          length-append (pad (comma ∷ types)) [],
        ),
      )
