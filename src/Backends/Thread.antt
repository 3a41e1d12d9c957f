-- ===== src/Backends/Thread.antt =====
-- src/logger/logger_thread_ctx.rs, `log_thread` and the closure of `init`, over the features of a build.
-- A section that calls no backend is that of paperlog.LogThread.
use paperlog.Base.{Bool, if◌then◌else◌, codes, concat, List, [], ◌∷◌, ℕ, Option, none, some}
use paperlog.LogLevel.{error}
use paperlog.LogData.{LogData}
use paperlog.LoggerError.{LoggerError, display_error}
use paperlog.LoggerThreadCtx.{LoggerThreadCtx, signal}
use paperlog.LogThread
use paperlog.LogThread.{
  Crates, Pc, writing, handing, flushing, deciding, failed, reporting, stopped, panicked, Thread,
}
use paperlog.Logcat
use paperlog.Backends.{Build, Outputs, Stepped, goes, ends, panics, hand_one, log_data_to}

-- A section that works on the shared state only.
unfoldable pub on_ctx : Outputs → Option (LoggerThreadCtx × Thread) → Option (Outputs × Thread)
on_ctx out none = none
on_ctx out (some (ctx, t)) = some (record out { ctx = ctx }, t)

-- `?` in the loop over the backends; a panic ends the thread.
unfoldable pub after_hand : Thread → List LogData → Stepped → Outputs × Thread
after_hand t rest (goes out) = (out, record t { pc = handing rest })
after_hand t rest (ends out e) = (out, record t { pc = failed e })
after_hand t rest (panics out) = (out, record t { pc = panicked })

unfoldable pub after_report : Thread → LoggerError → Stepped → Outputs × Thread
after_report t e (goes out) = (out, record t { pc = stopped e })
after_report t e (ends out e') = (out, record t { pc = stopped e })
after_report t e (panics out) = (out, record t { pc = panicked })

-- A flush without the files: the semaphore is signalled.
unfoldable pub signal_flush : Outputs → Outputs
signal_flush out = record out {
  ctx = record out.ctx { flush_signal = signal out.ctx.flush_signal };
}

module _ (crates : Crates) (loggable : Logcat.Priority → List ℕ → Bool) (build : Build) where
  open crates use {format_time, now, here}

  -- The closure's report.
  unfoldable pub report : Outputs → LoggerError → Stepped
  report out e =
      log_data_to format_time loggable build error (some (codes "Paper2"))
        (concat (codes "Error occurred in logging thread: " ∷ display_error e ∷ [])) now here out

  unfoldable pub step_at : Outputs → Thread → Pc → Option (Outputs × Thread)
  unfolding on_ctx
  step_at out t (writing logs) =
      if build.file
      then on_ctx out (LogThread.thread_step crates out.ctx t)
      else some (out, record t { pc = handing logs })
  step_at out t (handing (log ∷ rest)) =
      some (after_hand t rest (hand_one format_time loggable build log out))
  step_at out t flushing =
      if build.file
      then on_ctx out (LogThread.thread_step crates out.ctx t)
      else some (signal_flush out, record t { pc = deciding; logged = 0 })
  step_at out t (failed e) =
      if build.file
      then on_ctx out (LogThread.thread_step crates out.ctx t)
      else some (signal_flush out, record t { pc = reporting e })
  step_at out t (reporting e) = some (after_report t e (report out e))
  step_at out t _ = on_ctx out (LogThread.thread_step crates out.ctx t)

  -- One step of the thread; `none` where it cannot make one.
  unfoldable pub thread_step : Outputs → Thread → Option (Outputs × Thread)
  thread_step out t = step_at out t t.pc
