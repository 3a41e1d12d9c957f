-- ===== src/Dispatch/Laws.antt =====
-- The synchronous path and the global file.
use paperlog.Base.{
  ◌≡◌, sym, ap, subst, ◌∙◌, Bool, true, false, if◌then◌else◌, Text, codes, concat, [], ◌∷◌, ◌++◌,
  Option, none, some, append-nil,
}
use paperlog.LogLevel.{LogLevel, error}
use paperlog.LogData.{LogData, Instant, full_line}
use paperlog.LoggerThreadCtx.{LoggerThreadCtx, Location}
use paperlog.FileLogger
use paperlog.FileLogger.Batch.{batch_round-do_log}
use paperlog.FileLogger.Round.{AllSound, extended, Round, batch_round-Round}
use paperlog.FileLogger.Contents.{Round-AllSound}
use paperlog.SinkLogger
use paperlog.Dispatch.{Payload, panic_message, display_location, do_log, log_data_to, panic_hook}

-- The entry that `log_data_to!` makes.
abbrev pub entry : LogLevel → Option Text → Text → Instant → Location → LogData
entry level tag message now here = record {
  level = level;
  tag = tag;
  message = message;
  timestamp = now;
  file = here.file;
  line = here.line;
  column = here.column;
  function_name = none;
}

-- The entry by which the hook tells of a panic.
abbrev pub panic_entry : Payload → Location → Instant → Location → LogData
panic_entry payload location now here =
    entry error (some (codes "panic"))
      (concat (
        codes "panicked at '"
        ∷ panic_message payload
        ∷ codes "', "
        ∷ display_location location
        ∷ []))
      now here

module _ (format_time : Instant → Text) where
  pub file_log-Round :
      (log : LogData) (ctx : LoggerThreadCtx)
      → AllSound ctx
      → Round format_time log ctx (FileLogger.do_log format_time log ctx)
  file_log-Round log ctx s =
      subst (Round format_time log ctx) (batch_round-do_log format_time log ctx)
        (batch_round-Round format_time log ctx s)

  pub do_log-global :
      (log : LogData) (ctx : LoggerThreadCtx)
      → AllSound ctx
      → (do_log format_time log ctx).0.global_file
        ≡ extended (full_line format_time log) ctx.global_file
  unfolding do_log SinkLogger.do_log
  do_log-global log ctx s = let r = file_log-Round log ctx s in rw (r.fine, do_log) r.global

  do_log-file :
      (log : LogData) (ctx : LoggerThreadCtx)
      → AllSound ctx
      → ((do_log format_time log ctx).0.global_file.text
          ≡ ctx.global_file.text ++ full_line format_time log)
        × AllSound (do_log format_time log ctx).0
  unfolding do_log SinkLogger.do_log
  do_log-file log ctx s =
      let r = file_log-Round log ctx s in
      let sound = Round-AllSound format_time r s in
      rw (r.fine, do_log)
        (ap (λ f. f.text) r.global, record { global = sound.global; contexts = sound.contexts })

  -- If no write that is still to come fails, the panic hook leaves the panic's line at the end of the
  -- global file, and behind it, if a backtrace is wanted, the backtrace's.
  pub panic_hook-writes :
      (backtrace : Bool) (ctx : LoggerThreadCtx) (payload : Payload) (location : Location)
      (captured : Text) (now : Instant) (here : Location)
      → AllSound ctx
      → (panic_hook format_time backtrace ctx payload location captured now here).global_file.text
        ≡ ctx.global_file.text
          ++ full_line format_time (panic_entry payload location now here)
          ++ (if backtrace
              then full_line format_time (entry error (some (codes "panic")) captured now here)
              else [])
  unfolding panic_hook log_data_to
  panic_hook-writes false ctx payload location captured now here s =
      (do_log-file (panic_entry payload location now here) ctx s).0 ∙ sym (append-nil _)
  panic_hook-writes true ctx payload location captured now here s =
      let first = do_log-file (panic_entry payload location now here) ctx s in
      (do_log-file (entry error (some (codes "panic")) captured now here)
        (do_log format_time (panic_entry payload location now here) ctx).0 first.1).0
      ∙ ap (λ t. t ++ full_line format_time (entry error (some (codes "panic")) captured now here))
          first.0
