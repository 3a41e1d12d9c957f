-- ===== src/Backends/Steps.antt =====
-- A step of the logging thread in a build with files and sinks beside that of paperlog.LogThread.
use paperlog.Base.{◌≡◌, refl, arith, Bool, codes, concat, List, [], ◌∷◌, ℕ, Option, none, some}
use paperlog.LogData.{LogData}
use paperlog.LoggerError.{LoggerError, display_error}
use paperlog.LoggerThreadCtx.{LoggerThreadCtx}
use paperlog.Logcat
use paperlog.SinkLogger
use paperlog.LogThread
use paperlog.LogThread.{
  Crates, Pc, top, taken, writing, handing, checking, flushing, deciding, waiting, failed,
  reporting, stopped, panicked, Thread,
}
use paperlog.Backends.{Build, Outputs, Stepped, goes, ends, panics, hand_one}
use paperlog.Backends.Simulation.{outcome, FilesAndSinks, Goes, hand_one-outcome, report-outcome}
use paperlog.Backends.Calls.{Suits}
use paperlog.Backends.Thread.{on_ctx, after_hand, after_report, report, step_at, thread_step}
use paperlog.LogThread.Entries.{InHand}

-- What a step did to the shared state and the thread.
unfoldable pub shared : Option (Outputs × Thread) → Option (LoggerThreadCtx × Thread)
shared none = none
shared (some (out, t)) = some (out.ctx, t)

on_ctx-shared : (out : Outputs) (r : Option (LoggerThreadCtx × Thread)) → shared (on_ctx out r) ≡ r
unfolding shared on_ctx
on_ctx-shared out none = refl
on_ctx-shared out (some r) = refl

module _ (crates : Crates) (loggable : Logcat.Priority → List ℕ → Bool) (build : Build) where
  open crates use {format_time}

  after_hand-shared :
      (t : Thread) (rest : List LogData) (s : Stepped) (r : LoggerThreadCtx × Option LoggerError)
      → outcome s ≡ some r
      → shared (some (after_hand t rest s)) ≡ some (LogThread.after_hand crates t rest r)
  unfolding shared outcome after_hand LogThread.after_hand
  after_hand-shared t rest (goes out) (ctx, none) h = ground arith
  after_hand-shared t rest (goes out) (ctx, some e) h = ground arith
  after_hand-shared t rest (ends out e) (ctx, none) h = ground arith
  after_hand-shared t rest (ends out e) (ctx, some e') h = ground arith
  after_hand-shared t rest (panics out) r h = ground arith

  after_report-shared :
      (t : Thread) (e : LoggerError) (s : Stepped) (ctx : LoggerThreadCtx)
      → Goes format_time loggable build s ctx
      → shared (some (after_report t e s)) ≡ some (ctx, record t { pc = stopped e })
  unfolding shared after_report
  after_report-shared t e s ctx (out, went, same) = rw (went, same) refl

  abbrev on_files : Outputs → Thread → Option (Outputs × Thread)
  on_files out t = on_ctx out (LogThread.thread_step crates out.ctx t)

  step_at-shared :
      (out : Outputs) (t : Thread) (pc : Pc)
      → FilesAndSinks build
      → InHand (Suits build) pc
      → t.pc ≡ pc
      → shared (step_at crates loggable build out t pc) ≡ LogThread.thread_step crates out.ctx t
  unfolding step_at LogThread.thread_step LogThread.step_at report LogThread.report after_hand
      after_report
  step_at-shared out t (writing logs) (file, sinks) suited at_pc =
      rw (file) (on_ctx-shared out (LogThread.thread_step crates out.ctx t))
  step_at-shared out t flushing (file, sinks) suited at_pc =
      rw (file) (on_ctx-shared out (LogThread.thread_step crates out.ctx t))
  step_at-shared out t (failed e) (file, sinks) suited at_pc =
      rw (file) (on_ctx-shared out (LogThread.thread_step crates out.ctx t))
  step_at-shared out t (handing (log ∷ rest)) plain suited at_pc = rw (at_pc) (
      after_hand-shared t rest (hand_one format_time loggable build log out)
        (SinkLogger.do_log log out.ctx)
        (hand_one-outcome format_time loggable build log out plain suited.0))
  step_at-shared out t (reporting e) plain suited at_pc = rw (at_pc) (
      after_report-shared t e (report crates loggable build out e)
        (LogThread.report crates out.ctx e)
        (report-outcome format_time loggable build
          (concat (codes "Error occurred in logging thread: " ∷ display_error e ∷ [])) crates.now
          crates.here out plain))
  step_at-shared out t _ plain suited at_pc =
      on_ctx-shared out (LogThread.thread_step crates out.ctx t)

  -- Whatever else the build prints, a step of its thread does to the shared state and to the thread
  -- what the step of the thread with files and sinks alone does, and it can be made if that can.
  pub thread_step-shared :
      (out : Outputs) (t : Thread)
      → FilesAndSinks build
      → InHand (Suits build) t.pc
      → shared (thread_step crates loggable build out t) ≡ LogThread.thread_step crates out.ctx t
  unfolding thread_step
  thread_step-shared out t plain suited = step_at-shared out t t.pc plain suited refl
