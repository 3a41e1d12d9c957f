-- ===== src/Dispatch.antt =====
-- src/logger/logger_thread_ctx.rs, the synchronous path: `do_log`, the `log_data_to!` macro and the
-- panic hook, in a build with the default features for a target other than Android, which has the
-- backends `file` and `sinks`.
pub mod Laws
use paperlog.Base.{Bool, if◌then◌else◌, Text, codes, concat, show_u32, [], ◌∷◌, Option, none, some}
use paperlog.LogLevel.{LogLevel, error}
use paperlog.LogData.{LogData, Instant}
use paperlog.LoggerError.{LoggerError, io_error}
use paperlog.LoggerThreadCtx.{LoggerThreadCtx, Location}
use paperlog.FileLogger
use paperlog.SinkLogger

-- The payload of a panic, as far as the hook reads it.
pub data Payload : Type 0 where
  static_str : Text → Payload
  string : Text → Payload
  other : Payload

unfoldable pub panic_message : Payload → Text
panic_message (static_str s) = s
panic_message (string s) = s
panic_message other = codes "Box<dyn Any>"

-- `Display for std::panic::Location`
unfoldable pub display_location : Location → Text
display_location l =
    concat (l.file ∷ codes ":" ∷ show_u32 l.line ∷ codes ":" ∷ show_u32 l.column ∷ [])

module _ (format_time : Instant → Text) where
  -- The file first; its error ends the call, as an IoError.
  unfoldable pub do_log : LogData → LoggerThreadCtx → LoggerThreadCtx × Option LoggerError
  do_log log ctx =
      let (ctx', r) = FileLogger.do_log format_time log ctx in
      elim r [ some e ↦ (ctx', some (io_error e)) | none ↦ SinkLogger.do_log log ctx' ]

  -- `log_data_to!`: the result of `do_log` is dropped.
  unfoldable pub log_data_to :
      LoggerThreadCtx → LogLevel → Option Text → Text → Instant → Location → LoggerThreadCtx
  log_data_to ctx level tag message now here =
      (do_log
        (record {
          level = level;
          tag = tag;
          message = message;
          timestamp = now;
          file = here.file;
          line = here.line;
          column = here.column;
          function_name = none;
        })
        ctx).0

  -- `panic_hook(backtrace, _, logger)` called with the panic's payload and place; `captured` is the
  -- backtrace taken, printed.
  unfoldable pub panic_hook :
      Bool → LoggerThreadCtx → Payload → Location → Text → Instant → Location → LoggerThreadCtx
  panic_hook backtrace ctx payload location captured now here =
      let ctx' =
        log_data_to ctx error (some (codes "panic"))
          (concat (
            codes "panicked at '"
            ∷ panic_message payload
            ∷ codes "', "
            ∷ display_location location
            ∷ []))
          now here in
      if backtrace then log_data_to ctx' error (some (codes "panic")) captured now here else ctx'
