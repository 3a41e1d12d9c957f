-- ===== src/Backends/Panics.antt =====
-- What an Android build does with a long tag.
use paperlog.Base.{
  ℕ, ◌≡◌, ◌<◌, refl, ap, ◌∙◌, Bool, true, false, List, [], ◌∷◌, length, arith, some, none, sym,
  if◌then◌else◌,
}
use paperlog.LogData.{LogData}
use paperlog.LogThread.{Crates, Thread, writing, handing, panicked}
use paperlog.LogThread
use paperlog.LogThread.Frame.{do_log_batch-sinks}
use paperlog.FileLogger
use paperlog.LoggerThreadCtx.{LoggerThreadCtx}
use paperlog.Logcat
use paperlog.Logcat.Laws.{room, slices_fit-room}
use paperlog.Backends.{
  Build, has_logcat, Outputs, Stepped, panics, under, ◌>>=◌, after_logcat, to_logcat, do_log,
  do_log_rest, hand_one, hand_rest,
}
use paperlog.Backends.Thread.{on_ctx, after_hand, step_at, thread_step}

module _ (crates : Crates) (loggable : Logcat.Priority → List ℕ → Bool) where
  open crates use {format_time}

  to_logcat-long :
      (build : Build) (log : LogData) (out : Outputs)
      → build.android_api_30 ≡ false
      → out.buffer ≡ []
      → room log < length (Logcat.tag_bytes log)
      → to_logcat format_time loggable build log out
        ≡ panics (record out { buffer = Logcat.fill [] log })
  unfolding to_logcat after_logcat Logcat.do_log
  to_logcat-long build log out old empty long =
      let misfit : Logcat.slices_fit (Logcat.fill [] log) log ≡ false =
        ground (arith, slices_fit-room [] log) in
      rw (old, empty) (rw misfit refl)

  hand_one-long :
      (build : Build) (log : LogData) (out : Outputs)
      → has_logcat build ≡ true
      → build.android_api_30 ≡ false
      → out.buffer ≡ []
      → room log < length (Logcat.tag_bytes log)
      → (rest : Outputs → Stepped)
      → under (has_logcat build) (to_logcat format_time loggable build log) out >>= rest
        ≡ panics (record out { buffer = Logcat.fill [] log })
  hand_one-long build log out has old empty long rest =
      ap (λ s. s >>= rest)
        (ap (λ b. under b (to_logcat format_time loggable build log) out) has
          ∙ to_logcat-long build log out old empty long)

  -- In a build with files and Android's log, without android-api-30, and with an empty buffer: an entry
  -- whose tag is too long panics in `do_log` before any other backend has it. In the logging thread,
  -- where it is the first of a batch, the step that writes the batch to the files comes first, and if
  -- that has no error, the next step panics: the files have the whole batch, no sink has any of it, and
  -- that is the end of the thread.
  pub logcat_panics_first :
      (build : Build) (log : LogData) (logs : List LogData) (out : Outputs) (t : Thread)
      (written : LoggerThreadCtx)
      → build.file ≡ true
      → has_logcat build ≡ true
      → build.android_api_30 ≡ false
      → out.buffer ≡ []
      → room log < length (Logcat.tag_bytes log)
      → t.pc ≡ writing (log ∷ logs)
      → FileLogger.do_log_batch format_time (log ∷ logs) out.ctx ≡ (written, none)
      → (do_log format_time loggable build log out
          ≡ panics (record out { buffer = Logcat.fill [] log }))
        × (thread_step crates loggable build out t
            ≡ some (record out { ctx = written }, record t { pc = handing (log ∷ logs) }))
        × (thread_step crates loggable build
              (record out { ctx = written })
              (record t { pc = handing (log ∷ logs) })
            ≡ some (
              record out { ctx = written; buffer = Logcat.fill [] log },
              record t { pc = panicked },
            ))
        × (written.sinks ≡ out.ctx.sinks)
  unfolding do_log hand_one thread_step step_at after_hand on_ctx LogThread.thread_step
      LogThread.step_at LogThread.after_write
  logcat_panics_first build log logs out t written file has old empty long at_pc batch = (
    hand_one-long build log out has old empty long (do_log_rest format_time loggable build log),
    ap (step_at crates loggable build out t) at_pc
        ∙ ap
            (λ b.
              if b
              then on_ctx out (LogThread.thread_step crates out.ctx t)
              else some (out, record t { pc = handing (log ∷ logs) }))
            file
        ∙ ap (λ pc. on_ctx out (LogThread.step_at crates out.ctx t pc)) at_pc
        ∙ ap (λ r. on_ctx out (some (LogThread.after_write crates t (log ∷ logs) r))) batch,
    ap (λ s. some (after_hand (record t { pc = handing (log ∷ logs) }) logs s))
        (hand_one-long build log (record out { ctx = written }) has old empty long
          (hand_rest format_time loggable build log)),
    sym (ap (λ r. r.0.sinks) batch) ∙ do_log_batch-sinks format_time (log ∷ logs) out.ctx,
  )
