-- ===== src/Logger/Copies.antt =====
-- What libs/logger.c writes to its two streams.
use network_gamepads.Base.{
  ℕ, suc, ◌%◌, ◌≡◌, refl, ap, inl, inr, Bool, true, false, not, ◌&&◌, List, [], ◌∷◌, ◌++◌, leb,
  ◌==◌, if◌then◌else◌, arith, Bool-cases, text, isprint, length,
}
use network_gamepads.Logger.{
  stream, stderr, Logger, Clock, Output, print, flush, entry, logprintf, Formats, dump_loop,
  log_dump_buffer,
}

-- What was printed to stderr, and what to the field stream.
abbrev pub on_stderr : List Output → List (List ℕ)
on_stderr [] = []
on_stderr (print stderr s ∷ out) = s ∷ on_stderr out
on_stderr (_ ∷ out) = on_stderr out

abbrev pub on_stream : List Output → List (List ℕ)
on_stream [] = []
on_stream (print stream s ∷ out) = s ∷ on_stream out
on_stream (_ ∷ out) = on_stream out

-- stderr has all that the stream has, or nothing.
abbrev pub Copies : Bool → List Output → Type 0
Copies secondary out = on_stderr out ≡ (if secondary then on_stream out else [])

on_stderr-append : (a b : List Output) → on_stderr (a ++ b) ≡ on_stderr a ++ on_stderr b
on_stderr-append [] b = refl
on_stderr-append (print stderr s ∷ a) b = ap (◌∷◌ s) (on_stderr-append a b)
on_stderr-append (print stream s ∷ a) b = on_stderr-append a b
on_stderr-append (flush sink ∷ a) b = on_stderr-append a b

on_stream-append : (a b : List Output) → on_stream (a ++ b) ≡ on_stream a ++ on_stream b
on_stream-append [] b = refl
on_stream-append (print stream s ∷ a) b = ap (◌∷◌ s) (on_stream-append a b)
on_stream-append (print stderr s ∷ a) b = on_stream-append a b
on_stream-append (flush sink ∷ a) b = on_stream-append a b

Copies-append :
    (secondary : Bool) (a b : List Output)
    → Copies secondary a
    → Copies secondary b
    → Copies secondary (a ++ b)
Copies-append true a b h h' = ground (arith, on_stderr-append a b, on_stream-append a b)
Copies-append false a b h h' = ground (arith, on_stderr-append a b, on_stream-append a b)

module _ (log : Logger) (clock : Clock) (level : ℕ) where
  logprintf-Copies :
      (message : List ℕ) → Copies log.log_secondary (logprintf log clock level message)
  unfolding logprintf entry
  logprintf-Copies message = elim (Bool-cases log.log_secondary) [
    | inl s ↦ elim (Bool-cases (leb level log.verbosity)) [
      | inl v ↦ elim (Bool-cases log.print_timestamp) [
        | inl p ↦ ground arith
        | inr p ↦ ground arith
      ]
      | inr v ↦ ground arith
    ]
    | inr s ↦ elim (Bool-cases (leb level log.verbosity)) [
      | inl v ↦ elim (Bool-cases log.print_timestamp) [
        | inl p ↦ ground arith
        | inr p ↦ ground arith
      ]
      | inr v ↦ ground arith
    ]
  ]

  Copies-if :
      (test : Bool) (message : List ℕ)
      → Copies log.log_secondary (if test then logprintf log clock level message else [])
  Copies-if true message = logprintf-Copies message
  Copies-if false message = ground arith

  dump_loop-Copies :
      (formats : Formats) (i : ℕ) (bytes : List ℕ)
      → Copies log.log_secondary (dump_loop log clock formats level i bytes)
  unfolding dump_loop
  dump_loop-Copies formats i [] = ground arith
  dump_loop-Copies formats i (b ∷ bs) =
      let item : List ℕ = formats.item i (if isprint b then b else 0x2E) b in
      let break : Bool = not (i == 0) && (i % 8 == 0) in
      Copies-append log.log_secondary (logprintf log clock level item)
        ((if break then logprintf log clock level (text "\n") else [])
          ++ dump_loop log clock formats level (suc i) bs)
        (logprintf-Copies item)
        (Copies-append log.log_secondary
          (if break then logprintf log clock level (text "\n") else [])
          (dump_loop log clock formats level (suc i) bs) (Copies-if break (text "\n"))
          (dump_loop-Copies formats (suc i) bs))

  -- log_dump_buffer writes to stderr all the texts that it writes to the stream, in their order, where
  -- log_secondary is set, and none where it is not.
  pub log_dump_buffer-Copies :
      (formats : Formats) (bytes : List ℕ)
      → Copies log.log_secondary (log_dump_buffer log clock formats level bytes)
  unfolding log_dump_buffer
  log_dump_buffer-Copies formats bytes =
      Copies-append log.log_secondary (logprintf log clock level (formats.header (length bytes)))
        (dump_loop log clock formats level 0 bytes ++ logprintf log clock level (text "\n"))
        (logprintf-Copies (formats.header (length bytes)))
        (Copies-append log.log_secondary (dump_loop log clock formats level 0 bytes)
          (logprintf log clock level (text "\n")) (dump_loop-Copies formats 0 bytes)
          (logprintf-Copies (text "\n")))
