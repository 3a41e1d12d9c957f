-- ===== src/LogThread/Health.antt =====
-- A logger nothing of which fails: no write, no sink, and the limit on a message's length is
-- positive.
use paperlog.Base.{Bool, ◌<◌, ◌≡◌, refl, List, [], ◌∷◌, none, All, arith, Text}
use paperlog.Io.{OutFile, Sound, flush_file}
use paperlog.TextMap.{TextMap, AllValues}
use paperlog.LogData.{LogData, Instant}
use paperlog.LoggerThreadCtx.{LoggerThreadCtx, Sink, flush, flush_all}
use paperlog.FileLogger
use paperlog.LogThread.Frame.{flush-Frame, flush-sinks}
use paperlog.FileLogger.Health.{FilesSound, FilesSound-AllSound, do_log_batch-FilesSound}
use paperlog.FileLogger.Contents.{do_log_batch-Wrote}
use paperlog.SinkLogger

-- A sink that never answers with an error.
abbrev pub Willing : Sink → Type 0
Willing sink = (received : List LogData) (log : LogData) → sink.reply received log ≡ none

pub record Healthy (ctx : LoggerThreadCtx) : Type 0 where
  pub files : FilesSound ctx
  pub sinks : All Willing ctx.sinks
  pub limit : 0 < ctx.config.max_string_len

-- The queue and its signal do not matter.
pub Healthy-queue :
    {ctx : LoggerThreadCtx} (queue : List LogData) (signal : Bool)
    → Healthy ctx
    → Healthy (record ctx { log_queue = queue; log_signal = signal })
Healthy-queue queue signal h = record {
  files = record { global = h.files.global; contexts = h.files.contexts };
  sinks = h.sinks;
  limit = h.limit;
}

flush_file-Sound : (f : OutFile) → Sound f → ((flush_file f).1 ≡ none) × Sound (flush_file f).0
unfolding flush_file
flush_file-Sound f h = ground arith

flush_all-Sound :
    (m : TextMap OutFile)
    → AllValues Sound m
    → ((flush_all m).1 ≡ none) × AllValues Sound (flush_all m).0
unfolding flush_all
flush_all-Sound [] a = (refl, tt)
flush_all-Sound (e ∷ m) a = ground (arith, flush_file-Sound e.value a.0, flush_all-Sound m a.1)

-- A flush succeeds where no write that is still to come fails.
pub flush-FilesSound :
    (ctx : LoggerThreadCtx) → FilesSound ctx → ((flush ctx).1 ≡ none) × FilesSound (flush ctx).0
unfolding flush
flush-FilesSound ctx h =
    let g = flush_file-Sound ctx.global_file h.global in
    let m = flush_all-Sound ctx.context_map h.contexts in
    rw (g.0, m.0, flush) (refl, record { global = g.1; contexts = m.1 })

pub flush-Healthy :
    (ctx : LoggerThreadCtx) → Healthy ctx → ((flush ctx).1 ≡ none) × Healthy (flush ctx).0
flush-Healthy ctx h =
    let f = flush-FilesSound ctx h.files in
    (
      f.0,
      record {
        files = f.1;
        sinks = rw (flush-sinks ctx) h.sinks;
        limit = rw (flush-Frame ctx).config h.limit;
      },
    )

call_sinks-Willing :
    (log : LogData) (sinks : List Sink)
    → All Willing sinks
    → ((SinkLogger.call_sinks log sinks).1 ≡ none) × All Willing (SinkLogger.call_sinks log sinks).0
unfolding SinkLogger.call_sinks
call_sinks-Willing log [] a = (refl, tt)
call_sinks-Willing log (sink ∷ sinks) a =
    let rest = call_sinks-Willing log sinks a.1 in
    rw (a.0 sink.received log, SinkLogger.call_sinks) (rest.0, (a.0, rest.1))

-- Every sink takes the entry.
pub sink_log-Healthy :
    (log : LogData) (ctx : LoggerThreadCtx)
    → Healthy ctx
    → ((SinkLogger.do_log log ctx).1 ≡ none) × Healthy (SinkLogger.do_log log ctx).0
unfolding SinkLogger.do_log
sink_log-Healthy log ctx h =
    let c = call_sinks-Willing log ctx.sinks h.sinks in
    (
      c.0,
      record {
        files = record { global = h.files.global; contexts = h.files.contexts };
        sinks = c.1;
        limit = h.limit;
      },
    )

module _ (format_time : Instant → Text) where
  -- A batch is written whole.
  pub do_log_batch-Healthy :
      (logs : List LogData) (ctx : LoggerThreadCtx)
      → Healthy ctx
      → ((FileLogger.do_log_batch format_time logs ctx).1 ≡ none)
        × Healthy (FileLogger.do_log_batch format_time logs ctx).0
  do_log_batch-Healthy logs ctx h =
      let (fine, wrote, sound) =
        do_log_batch-Wrote format_time logs ctx (FilesSound-AllSound h.files) in
      (
        fine,
        record {
          files = do_log_batch-FilesSound format_time logs ctx h.files;
          sinks = rw wrote.rest h.sinks;
          limit = rw wrote.rest h.limit;
        },
      )
