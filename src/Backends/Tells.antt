-- ===== src/Backends/Tells.antt =====
-- What one step of the logging thread shows.
use paperlog.Base.{refl, Bool, List, [], ◌∷◌, ℕ, Option, none, some, OnSome, if-both}
use paperlog.LogData.{LogData}
use paperlog.LoggerError.{LoggerError}
use paperlog.LoggerThreadCtx.{LoggerThreadCtx}
use paperlog.Logcat
use paperlog.LogThread
use paperlog.LogThread.{
  Crates, Pc, top, taken, writing, handing, checking, flushing, deciding, waiting, failed,
  reporting, stopped, panicked, Thread, adds, takes, start_thread,
}
use paperlog.LogThread.Serves.{IsAlive}
use paperlog.LogThread.Entries.{InHand}
use paperlog.Backends.{Build, Outputs, Stepped, goes, ends, panics, hand_one}
use paperlog.Backends.Calls.{Suits}
use paperlog.Backends.Shown.{Told, OnGoes, nothing_told, hand_one-Told}
use paperlog.Backends.Thread.{
  on_ctx, after_hand, after_report, signal_flush, report, step_at, thread_step,
}

module _ (crates : Crates) (loggable : Logcat.Priority → List ℕ → Bool) (build : Build) where
  open crates use {format_time}

  -- What the step told, if the thread is alive behind it.
  abbrev pub Tells : Outputs → List LogData → Outputs × Thread → Type 0
  Tells out logs r = IsAlive r.1.pc → Told format_time loggable build logs out r.0

  on_ctx-Tells :
      (out : Outputs) (r : Option (LoggerThreadCtx × Thread)) → OnSome (Tells out []) (on_ctx out r)
  unfolding on_ctx
  on_ctx-Tells out none = tt
  on_ctx-Tells out (some (ctx, t)) =
      λ alive. nothing_told format_time loggable build out (record out { ctx = ctx }) refl refl refl

  after_hand-Tells :
      (log : LogData) (rest : List LogData) (out : Outputs) (t : Thread) (s : Stepped)
      → OnGoes (Told format_time loggable build (log ∷ []) out) s
      → Tells out (log ∷ []) (after_hand t rest s)
  unfolding after_hand
  after_hand-Tells log rest out t (goes o) told = λ alive. told
  after_hand-Tells log rest out t (ends o e) told = λ alive. absurd alive
  after_hand-Tells log rest out t (panics o) told = λ alive. absurd alive

  after_report-Tells :
      (e : LoggerError) (out : Outputs) (t : Thread) (s : Stepped)
      → Tells out [] (after_report t e s)
  unfolding after_report
  after_report-Tells e out t (goes o) = λ alive. absurd alive
  after_report-Tells e out t (ends o e') = λ alive. absurd alive
  after_report-Tells e out t (panics o) = λ alive. absurd alive

  step_at-Tells :
      (out : Outputs) (t : Thread) (pc : Pc)
      → InHand (Suits build) pc
      → OnSome (Tells out (adds pc)) (step_at crates loggable build out t pc)
  unfolding step_at signal_flush
  step_at-Tells out t (writing logs) suited =
      if-both (OnSome (Tells out [])) build.file
        (on_ctx out (LogThread.thread_step crates out.ctx t))
        (some (out, record t { pc = handing logs }))
        (on_ctx-Tells out (LogThread.thread_step crates out.ctx t))
        (λ _. nothing_told format_time loggable build out out refl refl refl)
  step_at-Tells out t flushing suited =
      if-both (OnSome (Tells out [])) build.file
        (on_ctx out (LogThread.thread_step crates out.ctx t))
        (some (signal_flush out, record t { pc = deciding; logged = 0 }))
        (on_ctx-Tells out (LogThread.thread_step crates out.ctx t))
        (λ _. nothing_told format_time loggable build out (signal_flush out) refl refl refl)
  step_at-Tells out t (failed e) suited =
      if-both (OnSome (Tells out [])) build.file
        (on_ctx out (LogThread.thread_step crates out.ctx t))
        (some (signal_flush out, record t { pc = reporting e }))
        (on_ctx-Tells out (LogThread.thread_step crates out.ctx t))
        (λ _. nothing_told format_time loggable build out (signal_flush out) refl refl refl)
  step_at-Tells out t (handing (log ∷ rest)) suited =
      after_hand-Tells log rest out t (hand_one format_time loggable build log out)
        (hand_one-Told format_time loggable build log out suited.0)
  step_at-Tells out t (reporting e) suited =
      after_report-Tells e out t (report crates loggable build out e)
  step_at-Tells out t _ suited = on_ctx-Tells out (LogThread.thread_step crates out.ctx t)

  pub thread_step-Tells :
      (out : Outputs) (t : Thread)
      → InHand (Suits build) t.pc
      → OnSome (Tells out (adds t.pc)) (thread_step crates loggable build out t)
  unfolding thread_step
  thread_step-Tells out t suited = step_at-Tells out t t.pc suited
