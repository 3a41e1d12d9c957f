-- ===== src/LogThread/Contexts.antt =====
-- The logging thread opens no file: a tag without one has none behind a step, errors included.
use paperlog.Base.{Text, Bool, List, [], ◌∷◌, Option, none, some, OnSome, arith}
use paperlog.Io.{IoResult}
use paperlog.LogData.{LogData}
use paperlog.LoggerError.{LoggerError}
use paperlog.LoggerThreadCtx.{LoggerThreadCtx, wait}
use paperlog.SinkLogger
use paperlog.Dispatch
use paperlog.LogThread.{
  Crates, Pc, top, taken, writing, handing, checking, flushing, deciding, waiting, failed,
  reporting, stopped, panicked, Thread, take_batch, after_write, after_hand, after_flush, wake,
  report, step_at, thread_step,
}
use paperlog.FileLogger.Tags.{Lacks, flush-Lacks, do_log_batch-Lacks, do_log-Lacks}

module _ (crates : Crates) (k : Text) where
  open crates use {format_time}

  dispatch-Lacks :
      (log : LogData) (ctx : LoggerThreadCtx)
      → Lacks k ctx
      → Lacks k (Dispatch.do_log format_time log ctx).0
  unfolding Dispatch.do_log SinkLogger.do_log
  dispatch-Lacks log ctx h = ground (arith, do_log-Lacks k format_time log ctx h)

  after_write-Lacks :
      (t : Thread) (logs : List LogData) (r : LoggerThreadCtx × IoResult)
      → Lacks k r.0
      → Lacks k (after_write crates t logs r).0
  unfolding after_write
  after_write-Lacks t logs (ctx, none) h = h
  after_write-Lacks t logs (ctx, some e) h = h

  after_hand-Lacks :
      (t : Thread) (rest : List LogData) (r : LoggerThreadCtx × Option LoggerError)
      → Lacks k r.0
      → Lacks k (after_hand crates t rest r).0
  unfolding after_hand
  after_hand-Lacks t rest (ctx, none) h = h
  after_hand-Lacks t rest (ctx, some e) h = h

  after_flush-Lacks :
      (t : Thread) (r : LoggerThreadCtx × IoResult)
      → Lacks k r.0
      → Lacks k (after_flush crates t r).0
  unfolding after_flush
  after_flush-Lacks t (ctx, none) h = h
  after_flush-Lacks t (ctx, some e) h = h

  abbrev pub LacksOut : LoggerThreadCtx × Thread → Type 0
  LacksOut out = Lacks k out.0

  wake-Lacks :
      (ctx : LoggerThreadCtx) (t : Thread) (o : Option Bool)
      → Lacks k ctx
      → OnSome LacksOut (wake crates ctx t o)
  unfolding wake
  wake-Lacks ctx t none h = tt
  wake-Lacks ctx t (some flag) h = h

  step_at-Lacks :
      (ctx : LoggerThreadCtx) (t : Thread) (pc : Pc)
      → Lacks k ctx
      → OnSome LacksOut (step_at crates ctx t pc)
  unfolding step_at take_batch report Dispatch.log_data_to SinkLogger.do_log
  step_at-Lacks ctx t top h = h
  step_at-Lacks ctx t (taken q) h = h
  step_at-Lacks ctx t (writing logs) h =
      after_write-Lacks t logs _ (do_log_batch-Lacks k format_time logs ctx h)
  step_at-Lacks ctx t (handing []) h = h
  step_at-Lacks ctx t (handing (l ∷ ls)) h = after_hand-Lacks t ls (SinkLogger.do_log l ctx) h
  step_at-Lacks ctx t checking h = h
  step_at-Lacks ctx t flushing h = after_flush-Lacks t _ (flush-Lacks k ctx h)
  step_at-Lacks ctx t deciding h = h
  step_at-Lacks ctx t waiting h = wake-Lacks ctx t (wait ctx.log_signal) h
  step_at-Lacks ctx t (failed x) h = flush-Lacks k ctx h
  step_at-Lacks ctx t (reporting x) h = dispatch-Lacks _ ctx h
  step_at-Lacks ctx t (stopped x) h = tt
  step_at-Lacks ctx t panicked h = tt

  pub thread_step-Lacks :
      (ctx : LoggerThreadCtx) (t : Thread)
      → Lacks k ctx
      → OnSome LacksOut (thread_step crates ctx t)
  unfolding thread_step
  thread_step-Lacks ctx t h = step_at-Lacks ctx t t.pc h
