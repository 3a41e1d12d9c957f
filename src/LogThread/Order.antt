-- ===== src/LogThread/Order.antt =====
-- What a step of the logging thread takes out of the queue, and what it leaves there.
use paperlog.Base.{
  ◌≡◌, refl, List, [], ◌∷◌, ◌++◌, Option, none, some, arith, Bool, append-nil, OnSome,
}
use paperlog.Io.{IoResult}
use paperlog.LogLevel.{error}
use paperlog.LoggerError.{LoggerError}
use paperlog.LogData.{LogData}
use paperlog.VecPool.Laws.{IsClean, take_vec-IsClean, drop_guard-IsClean}
use paperlog.LoggerThreadCtx.{LoggerThreadCtx, wait}
use paperlog.LogThread.Frame.{
  Frame, do_log_batch-Frame, sink_log-Frame, flush-Frame, log_data_to-Frame,
}
use paperlog.LogThread.{
  Crates, Pc, top, taken, writing, handing, checking, flushing, deciding, waiting, failed,
  reporting, stopped, panicked, Thread, take_batch, after_write, after_hand, after_flush, wake,
  report, end_round, step_at, thread_step, takes,
}

-- The pool of the thread holds empty vectors, so its replacement for the queue is empty.
abbrev pub HasCleanPool : Thread → Type 0
HasCleanPool t = IsClean t.guard.rest

module _ (crates : Crates) where
  -- A step keeps the pool clean and splits the queue into what it takes and what is left.
  pub record Keeps (ctx : LoggerThreadCtx) (pc : Pc) (out : LoggerThreadCtx × Thread) : Type 0 where
    pub clean : HasCleanPool out.1
    pub queue : takes pc ctx ++ out.0.log_queue ≡ ctx.log_queue
    pub config : out.0.config ≡ ctx.config
    pub inited : out.0.inited ≡ ctx.inited

  after_write-Keeps :
      (ctx : LoggerThreadCtx) (t : Thread) (logs : List LogData) (r : LoggerThreadCtx × IoResult)
      → HasCleanPool t
      → Frame ctx r.0
      → Keeps ctx (writing logs) (after_write crates t logs r)
  unfolding after_write
  after_write-Keeps ctx t logs (ctx', none) c f = ground arith
  after_write-Keeps ctx t logs (ctx', some e) c f = ground arith

  after_hand-Keeps :
      (ctx : LoggerThreadCtx) (t : Thread) (log : LogData) (rest : List LogData)
      (r : LoggerThreadCtx × Option LoggerError)
      → HasCleanPool t
      → Frame ctx r.0
      → Keeps ctx (handing (log ∷ rest)) (after_hand crates t rest r)
  unfolding after_hand
  after_hand-Keeps ctx t log rest (ctx', none) c f = ground arith
  after_hand-Keeps ctx t log rest (ctx', some e) c f = ground arith

  after_flush-Keeps :
      (ctx : LoggerThreadCtx) (t : Thread) (r : LoggerThreadCtx × IoResult)
      → HasCleanPool t
      → Frame ctx r.0
      → Keeps ctx flushing (after_flush crates t r)
  unfolding after_flush
  after_flush-Keeps ctx t (ctx', none) c f = ground arith
  after_flush-Keeps ctx t (ctx', some e) c f = ground arith

  end_round-clean : (t : Thread) → HasCleanPool t → HasCleanPool (end_round t)
  unfolding end_round
  end_round-clean t c = drop_guard-IsClean t.guard c

  wake-Keeps :
      (ctx : LoggerThreadCtx) (t : Thread) (o : Option Bool)
      → HasCleanPool t
      → OnSome (Keeps ctx waiting) (wake crates ctx t o)
  unfolding wake
  wake-Keeps ctx t none c = tt
  wake-Keeps ctx t (some flag) c = record {
    clean = end_round-clean t c;
    queue = refl;
    config = refl;
    inited = refl;
  }

  take_batch-Keeps :
      (ctx : LoggerThreadCtx) (t : Thread)
      → HasCleanPool t
      → Keeps ctx top (take_batch crates ctx t)
  unfolding take_batch
  take_batch-Keeps ctx t c =
      let (emptied, clean) = take_vec-IsClean t.guard.rest c in
      record {
        clean = clean;
        queue = rw emptied (append-nil ctx.log_queue);
        config = refl;
        inited = refl;
      }

  report-Keeps :
      (ctx : LoggerThreadCtx) (t : Thread) (e : LoggerError)
      → HasCleanPool t
      → Keeps ctx (reporting e) (report crates ctx e, record t { pc = stopped e })
  unfolding report
  report-Keeps ctx t e c =
      let f = log_data_to-Frame crates.format_time ctx error _ _ crates.now crates.here in
      record { clean = c; queue = f.queue; config = f.config; inited = f.inited }

  step_at-Keeps :
      (ctx : LoggerThreadCtx) (t : Thread) (pc : Pc)
      → HasCleanPool t
      → OnSome (Keeps ctx pc) (step_at crates ctx t pc)
  unfolding step_at
  step_at-Keeps ctx t top c = take_batch-Keeps ctx t c
  step_at-Keeps ctx t (taken []) c = ground arith
  step_at-Keeps ctx t (taken (x ∷ q)) c = ground arith
  step_at-Keeps ctx t (writing logs) c =
      after_write-Keeps ctx t logs _ c (do_log_batch-Frame crates.format_time logs ctx)
  step_at-Keeps ctx t (handing []) c = ground arith
  step_at-Keeps ctx t (handing (l ∷ ls)) c = after_hand-Keeps ctx t l ls _ c (sink_log-Frame l ctx)
  step_at-Keeps ctx t checking c = ground arith
  step_at-Keeps ctx t flushing c = after_flush-Keeps ctx t _ c (flush-Frame ctx)
  step_at-Keeps ctx t deciding c = ground (arith, end_round-clean t c)
  step_at-Keeps ctx t waiting c = wake-Keeps ctx t (wait ctx.log_signal) c
  step_at-Keeps ctx t (failed x) c =
      let f = flush-Frame ctx in
      record { clean = c; queue = f.queue; config = f.config; inited = f.inited }
  step_at-Keeps ctx t (reporting x) c = report-Keeps ctx t x c
  step_at-Keeps ctx t (stopped x) c = tt
  step_at-Keeps ctx t panicked c = tt

  -- Whatever a step does, what the thread takes is the front of the queue, and all the rest stays.
  pub thread_step-Keeps :
      (ctx : LoggerThreadCtx) (t : Thread)
      → HasCleanPool t
      → OnSome (Keeps ctx t.pc) (thread_step crates ctx t)
  unfolding thread_step
  thread_step-Keeps ctx t c = step_at-Keeps ctx t t.pc c
