-- ===== src/Logcat.antt =====
-- src/logger/logcat_logger.rs: an entry goes to Android's log through a buffer that each thread
-- keeps. The buffer is bytes; a `String` is its UTF-8 form. What the C side is given is a pointer
-- into the buffer, which it reads up to the first NUL.
pub mod Direct
pub mod Laws
pub mod Pieces
pub mod Sends
use paperlog.Base.{
  ℕ, suc, zero, ◌+◌, ◌-◌, ◌*◌, ◌/◌, ◌%◌, ◌^◌, ◌==◌, ltb, leb, ◌&&◌, Bool, true, false,
  if◌then◌else◌, Text, codes, List, [], ◌∷◌, ◌++◌, concat, length, take, drop, show_u32, unwrap_or,
  Option, none, some,
}
use paperlog.LogLevel.{LogLevel, info, warn, error, debug, crit, off}
use paperlog.LogData.{LogData}

-- The variants that a level is sent as.
pub data Priority : Type 0 where
  verbose_priority debug_priority info_priority warn_priority error_priority fatal_priority
        silent_priority :
      Priority

-- `impl From<LogLevel> for Priority`
unfoldable pub to_priority : LogLevel → Priority
to_priority crit = fatal_priority
to_priority off = silent_priority
to_priority info = info_priority
to_priority warn = warn_priority
to_priority error = error_priority
to_priority debug = debug_priority

-- The bytes of a character.
utf8_char : ℕ → List ℕ
utf8_char c =
    if ltb c 128
    then c ∷ []
    else if ltb c 2048
    then (192 + c / 64) ∷ (128 + c % 64) ∷ []
    else if ltb c 65536
    then (224 + c / 4096) ∷ (128 + c / 64 % 64) ∷ (128 + c % 64) ∷ []
    else (240 + c / 262144) ∷ (128 + c / 4096 % 64) ∷ (128 + c / 64 % 64) ∷ (128 + c % 64) ∷ []

unfoldable pub utf8 : Text → List ℕ
unfolding utf8_char
utf8 [] = []
utf8 (c ∷ s) = utf8_char c ++ utf8 s

-- What is handed to `__android_log_write`, as the C side reads it.
pub record Sent : Type 0 where
  pub priority : Priority
  pub tag : List ℕ
  pub message : List ℕ
  pub origin : Option (List ℕ × ℕ)  -- file and line, where the call takes them

-- A call returns, with what was sent, or panics; either way there is a buffer afterwards.
pub data Ended : Type 0 where
  sent : Sent → Ended
  skipped : Ended
  panicked : Ended

-- `&buffer[from..to]`, which panics out of range.
unfoldable pub in_range : List ℕ → ℕ → ℕ → Bool
in_range buffer from to = leb from to && leb to (length buffer)

-- The C string at a place in the buffer.
unfoldable pub c_string : List ℕ → List ℕ
c_string [] = []
c_string (b ∷ bs) = if b == 0 then [] else b ∷ c_string bs

unfoldable pub message_str : LogData → List ℕ
message_str log = concat (
    codes "["
    ∷ utf8 log.file
    ∷ codes ":"
    ∷ show_u32 log.line
    ∷ codes ":"
    ∷ show_u32 log.column
    ∷ codes " @ "
    ∷ utf8 (unwrap_or log.function_name [])
    ∷ codes "] "
    ∷ utf8 log.message
    ∷ [])

unfoldable pub tag_bytes : LogData → List ℕ
tag_bytes log = utf8 (unwrap_or log.tag (codes "default"))

-- The buffer once tag, file and message were added to it, each with a NUL behind it.
unfoldable pub fill : List ℕ → LogData → List ℕ
unfolding tag_bytes message_str
fill buffer log =
    buffer ++ (tag_bytes log ++ 0 ∷ []) ++ (utf8 log.file ++ 0 ∷ []) ++ (message_str log ++ 0 ∷ [])

pub tag_len : LogData → ℕ
tag_len log = length (tag_bytes log) + 1

pub file_len : LogData → ℕ
unfolding tag_len
file_len log = tag_len log + length (utf8 log.file) + 1

message_len : LogData → ℕ
message_len log = length (message_str log) + 1

-- The three slices, as the code takes them.
unfoldable pub slices_fit : List ℕ → LogData → Bool
unfolding tag_len file_len message_len in_range
slices_fit buffer log =
    in_range buffer 0 (tag_len log)
    && in_range buffer (tag_len log) (file_len log)
    && in_range buffer (file_len log) (message_len log)

send : Option (List ℕ × ℕ) → List ℕ → LogData → Sent
unfolding file_len
send origin buffer log = record {
  priority = to_priority log.level;
  tag = c_string buffer;
  message = c_string (drop (file_len log) buffer);
  origin = origin;
}

-- `do_log` with the feature "android-api-30": `loggable` is the answer of
-- `__android_log_is_loggable`, and the entry goes out with its file and line. The early return
-- leaves the buffer as it is.
unfoldable pub do_log_api_30 : (Priority → List ℕ → Bool) → LogData → List ℕ → Ended × List ℕ
unfolding slices_fit send tag_len
do_log_api_30 loggable log buffer =
    let filled = fill buffer log in
    if slices_fit filled log
    then (if loggable (to_priority log.level) (c_string filled)
        then (sent (send (some (c_string (drop (tag_len log) filled), log.line)) filled log), [])
        else (skipped, filled))
    else (panicked, filled)

-- `do_log` without that feature.
unfoldable pub do_log : LogData → List ℕ → Ended × List ℕ
unfolding slices_fit send
do_log log buffer =
    let filled = fill buffer log in
    if slices_fit filled log then (sent (send none filled log), []) else (panicked, filled)
