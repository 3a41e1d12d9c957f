-- ===== src/LogThread/Over.antt =====
-- The end of the logging thread: the closure of `init` reports an error, and a panic is final.
use paperlog.Base.{◌≡◌, refl, ap, ◌∙◌, codes, concat, [], ◌∷◌, ◌++◌, none, some, length}
use paperlog.LogLevel.{error}
use paperlog.LogData.{LogData, full_line}
use paperlog.LoggerError.{LoggerError, display_error}
use paperlog.LoggerThreadCtx.{LoggerThreadCtx, flush}
use paperlog.Dispatch.Laws.{entry, do_log-global}
use paperlog.Dispatch.{log_data_to}
use paperlog.FileLogger.Round.{AllSound, extended}
use paperlog.LogThread.{
  Crates, Pc, failed, reporting, stopped, panicked, Thread, report, step_at, thread_step,
}
use paperlog.LogThread.Frame.{flush-Frame, log_data_to-Frame}
use paperlog.LogThread.Written.{flush-text}
use paperlog.FileLogger.Health.{FilesSound, FilesSound-AllSound}
use paperlog.LogThread.Idle.{flush-IsFlushed}
use paperlog.LogThread.Health.{flush-FilesSound}

-- The thread runs no more.
abbrev pub HasEnded : Pc → Type 0
HasEnded (stopped e) = Unit
HasEnded panicked = Unit
HasEnded _ = ⊥

module _ (crates : Crates) where
  report-queue :
      (ctx : LoggerThreadCtx) (e : LoggerError) → (report crates ctx e).log_queue ≡ ctx.log_queue
  unfolding report
  report-queue ctx e =
      (log_data_to-Frame crates.format_time ctx error _ _ crates.now crates.here).queue

  step_at-none :
      (ctx : LoggerThreadCtx) (t : Thread) (pc : Pc) → HasEnded pc → step_at crates ctx t pc ≡ none
  unfolding step_at
  step_at-none ctx t (stopped e) ended = refl
  step_at-none ctx t panicked ended = refl
  step_at-none ctx t _ ended = absurd ended

  pub thread_step-none :
      (ctx : LoggerThreadCtx) (t : Thread) → HasEnded t.pc → thread_step crates ctx t ≡ none
  unfolding thread_step
  thread_step-none ctx t ended = step_at-none ctx t t.pc ended

  -- The entry that tells of the error.
  abbrev pub error_entry : LoggerError → LogData
  error_entry e =
      entry error (some (codes "Paper2"))
        (concat (codes "Error occurred in logging thread: " ∷ display_error e ∷ [])) crates.now
        crates.here

  -- The closure's two steps: the flush, then the report.
  pub record Reported (ctx after : LoggerThreadCtx) (e : LoggerError) : Type 0 where
    pub text :
        after.global_file.text
        ≡ ctx.global_file.text ++ full_line crates.format_time (error_entry e)
    pub flushed : after.global_file.flushed ≡ length ctx.global_file.text
    pub queue : after.log_queue ≡ ctx.log_queue

  report-global :
      (ctx : LoggerThreadCtx) (e : LoggerError)
      → AllSound ctx
      → (report crates ctx e).global_file
        ≡ extended (full_line crates.format_time (error_entry e)) ctx.global_file
  unfolding report log_data_to
  report-global ctx e sound = do_log-global crates.format_time (error_entry e) ctx sound

  -- If the thread fails, and no write that is still to come fails, then after two steps it has stopped
  -- with its error, all that the global file had is flushed, and behind it stands the line that tells
  -- of the error, which is not flushed.
  pub failed-Reported :
      (ctx : LoggerThreadCtx) (t : Thread) (e : LoggerError)
      → t.pc ≡ failed e
      → FilesSound ctx
      → (ctx1 ctx2 : LoggerThreadCtx) × (t1 t2 : Thread) × (thread_step crates ctx t
          ≡ some (ctx1, t1))
        × (thread_step crates ctx1 t1 ≡ some (ctx2, t2))
        × (t2.pc ≡ stopped e)
        × Reported ctx ctx2 e
  unfolding thread_step step_at
  failed-Reported ctx t e at_failed sound =
      let (fine, files) = flush-FilesSound ctx sound in
      let global = report-global (flush ctx).0 e (FilesSound-AllSound files) in
      (
        (flush ctx).0,
        report crates (flush ctx).0 e,
        record t { pc = reporting e },
        record t { pc = stopped e },
        rw at_failed refl,
        refl,
        refl,
        record {
          text =
              ap (λ f. f.text) global
              ∙ ap (λ t. t ++ full_line crates.format_time (error_entry e)) (flush-text ctx);
          flushed =
              ap (λ f. f.flushed) global ∙ flush-IsFlushed ctx fine ∙ ap length (flush-text ctx);
          queue = report-queue (flush ctx).0 e ∙ (flush-Frame ctx).queue;
        },
      )
