-- ===== src/TracingLogger.antt =====
-- src/logger/tracing_logger.rs: an entry as an event of the `tracing` crate.
pub mod Laws
use paperlog.Base.{Text, List, [], ◌∷◌, ◌++◌}
use paperlog.LogLevel.{LogLevel, info, warn, error, debug, crit, off}
use paperlog.LogData.{LogData, Instant, format}

-- `tracing::Level`
pub data Level : Type 0 where
  error_level warn_level info_level debug_level trace_level : Level

-- `impl From<LogLevel> for tracing::Level`
unfoldable pub to_level : LogLevel → Level
to_level debug = debug_level
to_level info = info_level
to_level warn = warn_level
to_level error = error_level
to_level crit = error_level
to_level off = error_level

-- What the crate's macros are given.
pub record Emitted : Type 0 where
  pub level : Level
  pub message : Text

emit : Level → Text → List Emitted → List Emitted
emit level message events = events ++ record { level = level; message = message } ∷ []

by_level : LogLevel → Text → List Emitted → List Emitted
unfolding emit
by_level info message events = emit info_level message events
by_level warn message events = emit warn_level message events
by_level error message events = emit error_level message events
by_level debug message events = emit debug_level message events
by_level crit message events = emit error_level message events
by_level off message events = events

-- `do_log` always returns `Ok(())`.
unfoldable pub do_log : (Instant → Text) → LogData → List Emitted → List Emitted
unfolding by_level
do_log format_time log events = by_level log.level (format format_time log) events
