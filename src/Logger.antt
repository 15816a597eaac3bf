-- ===== src/Logger.antt =====
-- The log: libs/logger.h and libs/logger.c. What printf makes of a format and its arguments is a text.
pub mod Copies
use network_gamepads.Base.{
  ℕ, zero, suc, ◌+◌, ◌%◌, ℤ, pos, minus_one, negsuc, Bool, true, false, not, ◌&&◌, List, [], ◌∷◌,
  ◌++◌, Option, none, some, text, isprint, leb, ◌==◌, if◌then◌else◌, ◌-◌, length,
}

-- The field stream, and stderr.
pub data Sink : Type 0 where
  stream stderr : Sink

pub record Logger : Type 0 where
  pub verbosity : ℕ
  pub log_secondary : Bool
  pub print_timestamp : Bool

abbrev pub log_error : ℕ
log_error = 0

abbrev pub log_warning : ℕ
log_warning = 0

abbrev pub log_info : ℕ
log_info = 1

abbrev pub log_debug : ℕ
log_debug = 3

abbrev pub log_all_io : ℕ
log_all_io = 4

abbrev pub logger_timestring_len : ℕ
logger_timestring_len = 80

-- Whether localtime succeeds, and what strftime writes into so many bytes; `none` is its 0.
pub record Clock : Type 0 where
  pub localtime : Bool
  pub strftime : ℕ → Option (List ℕ)

-- The status, and the buffer after success.
unfoldable pub common_tprintf : Clock → ℕ → ℤ × List ℕ
common_tprintf clock buffer_length =
    if not clock.localtime
    then (minus_one, [])
    else elim (clock.strftime buffer_length) [ none ↦ (negsuc 1, []) | some s ↦ (pos 0, s) ]

unfoldable pub timestring : Clock → List ℕ
unfolding common_tprintf
timestring clock = elim (common_tprintf clock (logger_timestring_len - 1)).0 [
  | pos n ↦ (common_tprintf clock (logger_timestring_len - 1)).1
  | negsuc n ↦ text "Time failed"
]

pub data Output : Type 0 where
  print : Sink → List ℕ → Output
  flush : Sink → Output

-- One message to one of the two streams.
unfoldable pub entry : Logger → Clock → Sink → List ℕ → List Output
unfolding timestring
entry log clock sink message =
    (if log.print_timestamp then print sink (timestring clock ++ text " ") ∷ [] else [])
    ++ (print sink message ∷ flush sink ∷ [])

-- logprintf: what it writes, in order.
unfoldable pub logprintf : Logger → Clock → ℕ → List ℕ → List Output
unfolding entry
logprintf log clock level message =
    (if log.log_secondary && leb level log.verbosity then entry log clock stderr message else [])
    ++ (if leb level log.verbosity then entry log clock stream message else [])

-- The formats of log_dump_buffer: the first line, and the place, the character and the byte.
pub record Formats : Type 0 where
  pub header : ℕ → List ℕ
  pub item : ℕ → ℕ → ℕ → List ℕ

-- The loop of log_dump_buffer over the bytes from the i-th on.
unfoldable pub dump_loop : Logger → Clock → Formats → ℕ → ℕ → List ℕ → List Output
unfolding logprintf
dump_loop log clock formats level i [] = []
dump_loop log clock formats level i (b ∷ bs) =
    logprintf log clock level (formats.item i (if isprint b then b else 0x2E) b)
    ++ ((if not (i == 0) && (i % 8 == 0) then logprintf log clock level (text "\n") else [])
        ++ dump_loop log clock formats level (suc i) bs)

unfoldable pub log_dump_buffer : Logger → Clock → Formats → ℕ → List ℕ → List Output
unfolding dump_loop
log_dump_buffer log clock formats level data_bytes =
    logprintf log clock level (formats.header (length data_bytes))
    ++ (dump_loop log clock formats level 0 data_bytes ++ logprintf log clock level (text "\n"))
