-- ===== src/StdoutLogger.antt =====
-- src/logger/stdout_logger.rs: an entry on the standard output, as the text that was printed.
use paperlog.Base.{Text, newline, [], ◌∷◌, ◌++◌}
use paperlog.LogData.{LogData, Instant, format}

-- `println!`
unfoldable pub do_log : (Instant → Text) → LogData → Text → Text
do_log format_time log printed = printed ++ format format_time log ++ newline ∷ []
