-- ===== src/LogThread/Idle.antt =====
-- How the logging thread comes to wait: the queue as it was last seen, and what is unflushed.
use paperlog.Base.{
  ◌≡◌, ◌≢◌, ◌⊎◌, refl, sym, subst, List, [], ◌∷◌, length, Option, none, some, arith, inl, inr,
  OnSome, is_empty, Bool, false, ◌||◌, leb, if-both, if◌then◌else◌,
}
use paperlog.Io.{IoResult, flush_file}
use paperlog.LogData.{LogData}
use paperlog.LoggerError.{LoggerError}
use paperlog.LoggerThreadCtx.{LoggerThreadCtx, flush, wait}
use paperlog.LogThread.{
  Crates, Pc, top, taken, writing, handing, checking, flushing, deciding, waiting, failed,
  reporting, stopped, panicked, Thread, take_batch, after_split, after_write, after_hand,
  after_flush, wake, end_round, step_at, thread_step,
}

-- All that the global file accepted was flushed.
abbrev pub IsFlushed : LoggerThreadCtx → Type 0
IsFlushed ctx = ctx.global_file.flushed ≡ length ctx.global_file.text

-- Before the second look at the queue: it is not empty, or there is nothing left to flush.
abbrev pub IsSettled : LoggerThreadCtx → Type 0
IsSettled ctx = (ctx.log_queue ≢ []) ⊎ IsFlushed ctx

-- What the thread has done by the time it is at `pc`.
abbrev pub Idles : Pc → LoggerThreadCtx → Type 0
Idles deciding ctx = IsSettled ctx
Idles waiting ctx = IsFlushed ctx
Idles _ ctx = Unit

pub flush-IsFlushed : (ctx : LoggerThreadCtx) → (flush ctx).1 ≡ none → IsFlushed (flush ctx).0
unfolding flush flush_file
flush-IsFlushed ctx h = ground arith

module _ (crates : Crates) where
  abbrev pub IdlesOut : LoggerThreadCtx × Thread → Type 0
  IdlesOut out = Idles out.1.pc out.0 × (out.1.pc ≡ waiting → out.0.log_queue ≡ [])

  after_split-Idles :
      (ctx : LoggerThreadCtx) (t : Thread) (o : Option (List LogData))
      → IdlesOut (ctx, after_split crates t o)
  unfolding after_split
  after_split-Idles ctx t none = (tt, λ e. cc)
  after_split-Idles ctx t (some logs) = (tt, λ e. cc)

  after_write-Idles :
      (t : Thread) (logs : List LogData) (r : LoggerThreadCtx × IoResult)
      → IdlesOut (after_write crates t logs r)
  unfolding after_write
  after_write-Idles t logs (ctx, none) = (tt, λ e. cc)
  after_write-Idles t logs (ctx, some x) = (tt, λ e. cc)

  after_hand-Idles :
      (t : Thread) (logs : List LogData) (r : LoggerThreadCtx × Option LoggerError)
      → IdlesOut (after_hand crates t logs r)
  unfolding after_hand
  after_hand-Idles t logs (ctx, none) = (tt, λ e. cc)
  after_hand-Idles t logs (ctx, some x) = (tt, λ e. cc)

  after_flush-Idles :
      (t : Thread) (r : LoggerThreadCtx × IoResult)
      → (r.1 ≡ none → IsFlushed r.0)
      → IdlesOut (after_flush crates t r)
  unfolding after_flush
  after_flush-Idles t (ctx, none) h = (inr (h refl), λ e. cc)
  after_flush-Idles t (ctx, some x) h = (tt, λ e. cc)

  checked-Idles :
      (ctx : LoggerThreadCtx) (t : Thread) (q : List LogData)
      → ctx.log_queue ≡ q
      → IdlesOut
          (ctx, record t { pc = if is_empty q || leb 100 t.logged then flushing else deciding })
  checked-Idles ctx t [] e = (tt, λ h. cc)
  checked-Idles ctx t (x ∷ q) e =
      if-both (λ pc. IdlesOut (ctx, record t { pc = pc })) (leb 100 t.logged) flushing deciding
        (tt, λ h. cc) (inl (λ h. cc), λ h. cc)

  decided-Idles :
      (ctx : LoggerThreadCtx) (t : Thread) (q : List LogData)
      → ctx.log_queue ≡ q
      → IsSettled ctx
      → IdlesOut (ctx, if is_empty q then record t { pc = waiting } else end_round t)
  unfolding end_round
  decided-Idles ctx t [] e (inl busy) = absurd (busy e)
  decided-Idles ctx t [] e (inr flushed) = (flushed, λ h. e)
  decided-Idles ctx t (x ∷ q) e i = (tt, λ h. cc)

  wake-Idles :
      (ctx : LoggerThreadCtx) (t : Thread) (o : Option Bool) → OnSome IdlesOut (wake crates ctx t o)
  unfolding wake end_round
  wake-Idles ctx t none = tt
  wake-Idles ctx t (some flag) = (tt, λ h. cc)

  step_at-Idles :
      (ctx : LoggerThreadCtx) (t : Thread) (pc : Pc)
      → Idles pc ctx
      → OnSome IdlesOut (step_at crates ctx t pc)
  unfolding step_at take_batch end_round
  step_at-Idles ctx t top i = (tt, λ e. cc)
  step_at-Idles ctx t (taken []) i = (tt, λ e. cc)
  step_at-Idles ctx t (taken (x ∷ q)) i = after_split-Idles ctx t _
  step_at-Idles ctx t (writing logs) i = after_write-Idles t logs _
  step_at-Idles ctx t (handing []) i = (tt, λ e. cc)
  step_at-Idles ctx t (handing (l ∷ ls)) i = after_hand-Idles t ls _
  step_at-Idles ctx t checking i = checked-Idles ctx t ctx.log_queue refl
  step_at-Idles ctx t flushing i = after_flush-Idles t _ (flush-IsFlushed ctx)
  step_at-Idles ctx t deciding i = decided-Idles ctx t ctx.log_queue refl i
  step_at-Idles ctx t waiting i = wake-Idles ctx t (wait ctx.log_signal)
  step_at-Idles ctx t (failed x) i = (tt, λ e. cc)
  step_at-Idles ctx t (reporting x) i = (tt, λ e. cc)
  step_at-Idles ctx t (stopped x) i = tt
  step_at-Idles ctx t panicked i = tt

  -- A step into the wait leaves nothing unflushed and the queue empty.
  pub thread_step-Idles :
      (ctx : LoggerThreadCtx) (t : Thread)
      → Idles t.pc ctx
      → OnSome IdlesOut (thread_step crates ctx t)
  unfolding thread_step
  thread_step-Idles ctx t i = step_at-Idles ctx t t.pc i

  -- In the wait it makes no step while the signal is not set.
  pub thread_step-asleep :
      (ctx : LoggerThreadCtx) (t : Thread)
      → t.pc ≡ waiting
      → ctx.log_signal ≡ false
      → thread_step crates ctx t ≡ none
  unfolding thread_step step_at wake
  thread_step-asleep ctx t sleeps unset =
      subst (λ pc. step_at crates ctx t pc ≡ none) (sym sleeps)
        (subst (λ flag. wake crates ctx t (wait flag) ≡ none) (sym unset) refl)
