-- ===== src/Osc/Mapping/Fetching.antt =====
-- The inner loop of configure_mappings of osc/osc-xlater.c, over messages as OSC lays them out.
use network_gamepads.Base.{
  ℕ, ◌+◌, ◌<◌, ◌≤◌, ◌≡◌, refl, sym, ap, ◌∙◌, List, [], ◌∷◌, ◌++◌, Option, none, some, arith, All,
  length, drop, take, map,
}
use network_gamepads.Osc.{Floats, OscChannel, OscControl}
use network_gamepads.Osc.Parse.{comma, strlen, osc_parse, OscMessage}
use network_gamepads.Osc.Parse.Encoded.{
  NoNul, pad, encode, take-pad, length-encode, drop-encode, strlen-pad, encode_memory,
  osc_parse-encode,
}
use network_gamepads.Osc.Parse.Arguments.{Word, bytes_of}
use network_gamepads.Osc.Mapping.{
  Happening, message, keyboard, widen_channels, keep_path, again, fit, turn, fetched, fetch,
}
use network_gamepads.Osc.Mapping.Bounds.{
  IsOrder, WithinAll, WiderAll, WithinAll-WiderAll, length-WiderAll, WiderAll-refl, WiderAll-trans,
  widen_channels-Wider,
}

-- A message of OSC, with arguments of four bytes.
pub record Msg : Type 0 where
  pub path : List ℕ
  pub types : List ℕ
  pub words : List Word

abbrev pub text_of : Msg → List ℕ
text_of m = encode m.path m.types (bytes_of m.words)

abbrev pub arrive : Msg → Happening
arrive m = message (some (text_of m))

-- It has as many arguments as there are channels.
abbrev pub Suits : ℕ → Msg → Type 0
Suits n m = NoNul m.path × NoNul m.types × (length m.types ≡ n) × (n ≤ length m.words)

-- The path of the first message, unless there is one already.
abbrev pub first_path : Option (List ℕ) → List Msg → Option (List ℕ)
first_path (some path) ms = some path
first_path none [] = none
first_path none (m ∷ ms) = some m.path

first_path-nil : (path : Option (List ℕ)) → first_path path [] ≡ path
first_path-nil none = refl
first_path-nil (some path) = refl

module _ {F : Type 0} (fl : Floats F) where
  keep_path-first :
      (mem path : List ℕ) (old : Option (List ℕ)) (ms : List Msg) (m : Msg)
      → m.path ≡ path
      → strlen mem ≡ some (length path)
      → take (length path) mem ≡ path
      → (p : List ℕ) × (keep_path fl mem old ≡ some (some p))
        × (first_path (some p) ms ≡ first_path old (m ∷ ms))
  unfolding keep_path
  keep_path-first mem path (some p) ms m e len text = (p, refl, refl)
  keep_path-first mem path none ms m e len text = (path, ground arith, ap some (sym e))

  fit-again :
      (mem p : List ℕ) (control : OscControl F) (m : OscMessage) (cs : List (OscChannel F))
      → m.num_args ≡ control.num_channels
      → keep_path fl mem control.path ≡ some (some p)
      → widen_channels fl (drop m.args mem) 0 control.channels ≡ some cs
      → fit fl mem control m ≡ some (again mem (record control { path = some p; channels = cs }))
  unfolding fit
  fit-again mem p control m cs num path channels = ground arith

  turn-fit :
      (bytes buffer : List ℕ) (control : OscControl F) (m : OscMessage)
      → 0 < length bytes
      → osc_parse (bytes ++ drop (length bytes) buffer) (length bytes) ≡ some (some m)
      → turn fl (message (some bytes)) buffer control
        ≡ fit fl (bytes ++ drop (length bytes) buffer) control m
  unfolding turn
  turn-fit [] buffer control m more e = absurd (omega arith)
  turn-fit (b ∷ bs) buffer control m more e = ground arith

  -- The memory behind a message.
  abbrev over : Msg → List ℕ → List ℕ
  over m buffer = text_of m ++ drop (length (text_of m)) buffer

  turn-arrive :
      IsOrder fl
      → (m : Msg) (ms : List Msg) (buffer : List ℕ) (control : OscControl F)
      → control.num_channels ≡ length control.channels
      → Suits control.num_channels m
      → (p : List ℕ) × (cs : List (OscChannel F)) × (turn fl (arrive m) buffer control
          ≡ some (again (over m buffer) (record control { path = some p; channels = cs })))
        × (first_path (some p) ms ≡ first_path control.path (m ∷ ms))
        × WiderAll fl control.channels cs
        × WithinAll fl cs m.words
  turn-arrive order m ms buffer control num (h, h', same, le) =
      let stale : List ℕ = drop (length (text_of m)) buffer in
      let rest : List ℕ = pad (comma ∷ m.types) ++ (bytes_of m.words ++ stale) in
      let memory = encode_memory m.path m.types (bytes_of m.words) stale in
      let o : OscMessage = record {
        num_args = length m.types;
        args = length (pad m.path) + length (pad (comma ∷ m.types));
      } in
      let (p, kept, first) =
        keep_path-first (over m buffer) m.path control.path ms m refl
          (ap strlen memory ∙ strlen-pad m.path rest h)
          (ap (take (length m.path)) memory ∙ take-pad m.path rest) in
      let (cs, widened, wider, within) =
        widen_channels-Wider fl order (drop o.args (over m buffer)) stale 0 control.channels m.words
          (omega arith) (drop-encode m.path m.types (bytes_of m.words) stale) in
      (
        p,
        cs,
        turn-fit (text_of m) buffer control o (length-encode m.path m.types (bytes_of m.words))
              (osc_parse-encode m.path m.types (bytes_of m.words) stale h h')
            ∙ fit-again (over m buffer) p control o cs same kept widened,
        first,
        wider,
        within,
      )

  -- What the messages leave: the control with its path, and bounds that hold all values.
  abbrev pub Taught : OscControl F → List Msg → OscControl F → Type 0
  Taught control ms control' =
      (control'.path ≡ first_path control.path ms)
      × (control'.type ≡ control.type)
      × (control'.num_channels ≡ control.num_channels)
      × WiderAll fl control.channels control'.channels
      × All (λ m. WithinAll fl control'.channels m.words) ms

  fetch-again :
      (h : Happening) (later : List Happening) (buffer buffer' : List ℕ)
      (control control' : OscControl F)
      → turn fl h buffer control ≡ some (again buffer' control')
      → fetch fl (h ∷ later) buffer control ≡ fetch fl later buffer' control'
  unfolding fetch
  fetch-again h later buffer buffer' control control' e = ground arith

  pub fetch-Taught :
      IsOrder fl
      → (ms : List Msg) (keys : List ℕ) (later : List Happening) (buffer : List ℕ)
        (control : OscControl F)
      → control.num_channels ≡ length control.channels
      → All (Suits control.num_channels) ms
      → (control' : OscControl F) × (stale : List ℕ) × (fetch fl
            (map arrive ms ++ keyboard keys ∷ later)
            buffer
            control
          ≡ some (fetched (keys ++ stale) control' later))
        × Taught control ms control'
  unfolding fetch turn
  fetch-Taught order [] keys later buffer control num suits = (
    control,
    drop (length keys) buffer,
    ground arith,
    (sym (first_path-nil control.path), refl, refl, WiderAll-refl fl order control.channels, tt),
  )
  fetch-Taught order (m ∷ ms) keys later buffer control num suits =
      let (p, cs, turned, first, wider, within) =
        turn-arrive order m ms buffer control num suits.0 in
      let next : OscControl F = record control { path = some p; channels = cs } in
      let (control', stale, went, (path, type, size, wider', within')) =
        fetch-Taught order ms keys later (over m buffer) next
          (num ∙ sym (length-WiderAll fl control.channels cs wider)) suits.1 in
      (
        control',
        stale,
        fetch-again (arrive m) (map arrive ms ++ keyboard keys ∷ later) buffer (over m buffer)
              control next turned
            ∙ went,
        (
          path ∙ first,
          type,
          size,
          WiderAll-trans fl order control.channels cs control'.channels wider wider',
          (WithinAll-WiderAll fl order cs control'.channels m.words wider' within, within'),
        ),
      )
