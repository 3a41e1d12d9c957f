-- ===== src/LoggerError.antt =====
-- src/lib.rs, LoggerError, and the text that `thiserror` derives from its attributes. Backtraces
-- are left out: no message prints them.
use paperlog.Base.{Text, codes, Option, none, some, concat, [], ◌∷◌}
use paperlog.Io.{IoError}

pub data LoggerError : Type 0 where
  log_error : Text → LoggerError
  flush_error : IoError → LoggerError
  io_error : IoError → LoggerError
  io_specific_error : IoError → Option Text → Text → LoggerError
  already_initialized : LoggerError

-- `{:?}` of an Option<String>. The strings that the logger puts there need no escapes.
debug : Option Text → Text
debug none = codes "None"
debug (some s) = concat (codes "Some(\"" ∷ s ∷ codes "\")" ∷ [])

-- `impl Display for LoggerError`
unfoldable pub display_error : LoggerError → Text
unfolding debug
display_error (log_error s) = concat (codes "Unknown Error occurred in logging thread: " ∷ s ∷ [])
display_error (flush_error e) =
    concat (codes "Error occurred during flush in logging thread: " ∷ e.message ∷ [])
display_error (io_error e) = concat (codes "IO Error occurred in logging thread: " ∷ e.message ∷ [])
display_error (io_specific_error e context path) = concat (
    codes "IO Error at "
    ∷ path
    ∷ codes " occurred in logging thread: Context "
    ∷ debug context
    ∷ codes " "
    ∷ e.message
    ∷ [])
display_error already_initialized = codes "Logger already initialized"
