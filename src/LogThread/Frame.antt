-- ===== src/LogThread/Frame.antt =====
-- The backends and the parts of the state that they do not work on: the queue, its semaphore, the
-- configuration, the mark that it is initialised.
use paperlog.Base.{◌≡◌, refl, ◌∙◌, Text, List, [], ◌∷◌, Option, arith, Option-cases, inl, inr}
use paperlog.LogLevel.{LogLevel}
use paperlog.LogData.{LogData, Instant}
use paperlog.LoggerThreadCtx.{LoggerThreadCtx, Location, flush}
use paperlog.FileLogger
use paperlog.SinkLogger
use paperlog.Dispatch.{do_log, log_data_to}

pub record Frame (before after : LoggerThreadCtx) : Type 0 where
  pub config : after.config ≡ before.config
  pub queue : after.log_queue ≡ before.log_queue
  pub signal : after.log_signal ≡ before.log_signal
  pub inited : after.inited ≡ before.inited

pub Frame-refl : (ctx : LoggerThreadCtx) → Frame ctx ctx
Frame-refl ctx = record { config = refl; queue = refl; signal = refl; inited = refl }

pub Frame-trans : {a b c : LoggerThreadCtx} → Frame a b → Frame b c → Frame a c
Frame-trans f g = record {
  config = g.config ∙ f.config;
  queue = g.queue ∙ f.queue;
  signal = g.signal ∙ f.signal;
  inited = g.inited ∙ f.inited;
}

module _ (format_time : Instant → Text) where
  file_log-Frame :
      (log : LogData) (ctx : LoggerThreadCtx) → Frame ctx (FileLogger.do_log format_time log ctx).0
  unfolding FileLogger.do_log
  file_log-Frame log ctx = ground arith

  batch_round-Frame :
      (log : LogData) (ctx : LoggerThreadCtx)
      → Frame ctx (FileLogger.batch_round format_time log ctx).0
  unfolding FileLogger.batch_round
  batch_round-Frame log ctx = ground arith

  pub do_log_batch-Frame :
      (logs : List LogData) (ctx : LoggerThreadCtx)
      → Frame ctx (FileLogger.do_log_batch format_time logs ctx).0
  unfolding FileLogger.do_log_batch
  do_log_batch-Frame [] ctx = Frame-refl ctx
  do_log_batch-Frame (log ∷ logs) ctx =
      elim (Option-cases (FileLogger.batch_round format_time log ctx).1) [
        | inl fine ↦
            rw (fine, FileLogger.do_log_batch)
              (Frame-trans (batch_round-Frame log ctx)
                (do_log_batch-Frame logs (FileLogger.batch_round format_time log ctx).0))
        | inr (e, failed) ↦ rw (failed, FileLogger.do_log_batch) (batch_round-Frame log ctx)
      ]

pub sink_log-Frame :
    (log : LogData) (ctx : LoggerThreadCtx) → Frame ctx (SinkLogger.do_log log ctx).0
unfolding SinkLogger.do_log
sink_log-Frame log ctx = record { config = refl; queue = refl; signal = refl; inited = refl }

pub flush-Frame : (ctx : LoggerThreadCtx) → Frame ctx (flush ctx).0
unfolding flush
flush-Frame ctx = ground arith

module _ (format_time : Instant → Text) where
  do_log-Frame : (log : LogData) (ctx : LoggerThreadCtx) → Frame ctx (do_log format_time log ctx).0
  unfolding do_log
  do_log-Frame log ctx =
      let file = file_log-Frame format_time log ctx in
      elim (Option-cases (FileLogger.do_log format_time log ctx).1) [
        | inl fine ↦
            rw (fine, do_log)
              (Frame-trans file (sink_log-Frame log (FileLogger.do_log format_time log ctx).0))
        | inr (e, failed) ↦ rw (failed, do_log) file
      ]

  pub log_data_to-Frame :
      (ctx : LoggerThreadCtx) (level : LogLevel) (tag : Option Text) (message : Text)
      (now : Instant) (here : Location)
      → Frame ctx (log_data_to format_time ctx level tag message now here)
  unfolding log_data_to
  log_data_to-Frame ctx level tag message now here = do_log-Frame _ ctx

pub flush-sinks : (ctx : LoggerThreadCtx) → (flush ctx).0.sinks ≡ ctx.sinks
unfolding flush
flush-sinks ctx = ground arith

module _ (format_time : Instant → Text) where
  batch_round-sinks :
      (log : LogData) (ctx : LoggerThreadCtx)
      → (FileLogger.batch_round format_time log ctx).0.sinks ≡ ctx.sinks
  unfolding FileLogger.batch_round
  batch_round-sinks log ctx = ground arith

  pub do_log_batch-sinks :
      (logs : List LogData) (ctx : LoggerThreadCtx)
      → (FileLogger.do_log_batch format_time logs ctx).0.sinks ≡ ctx.sinks
  unfolding FileLogger.do_log_batch
  do_log_batch-sinks [] ctx = refl
  do_log_batch-sinks (log ∷ logs) ctx = ground (
    arith,
    batch_round-sinks log ctx,
    do_log_batch-sinks logs (FileLogger.batch_round format_time log ctx).0,
  )
