-- ===== src/LogThread/Serves.antt =====
-- A step of the logging thread in a healthy logger.
use paperlog.Base.{
  ℕ, true, false, zero, suc, ◌<◌, ◌≡◌, refl, ap, ◌∙◌, Bool, List, [], ◌∷◌, Option, none, some,
  OnSome, if-both, is_empty, ◌||◌, leb, arith,
}
use paperlog.Io.{IoResult}
use paperlog.LoggerError.{LoggerError}
use paperlog.LogData.{LogData}
use paperlog.Chunks.{IsChunks, split_str_into_chunks}
use paperlog.Chunks.Laws.{split_str_into_chunks-CutOf}
use paperlog.VecPool.{take_vec}
use paperlog.LoggerThreadCtx.{LoggerThreadCtx, wait}
use paperlog.LogThread.{
  Crates, Pc, top, taken, writing, handing, checking, flushing, deciding, waiting, failed,
  reporting, stopped, panicked, Thread, take_batch, after_split, after_write, after_hand,
  after_flush, wake, end_round, step_at, thread_step,
}
use paperlog.LogThread.Frame.{Frame, do_log_batch-Frame, sink_log-Frame, flush-Frame}
use paperlog.LogThread.Health.{
  Healthy, Healthy-queue, do_log_batch-Healthy, sink_log-Healthy, flush-Healthy,
}

-- The thread has neither failed nor panicked.
abbrev pub IsAlive : Pc → Type 0
IsAlive (failed e) = ⊥
IsAlive (reporting e) = ⊥
IsAlive (stopped e) = ⊥
IsAlive panicked = ⊥
IsAlive _ = Unit

-- Only the wait takes the signal.
abbrev pub Signals : Pc → LoggerThreadCtx → LoggerThreadCtx → Type 0
Signals waiting before after = Unit
Signals _ before after = after.log_signal ≡ before.log_signal

pub record Serves (ctx : LoggerThreadCtx) (pc : Pc) (out : LoggerThreadCtx × Thread) : Type 0 where
  pub healthy : Healthy out.0
  pub alive : IsAlive out.1.pc
  pub signal : Signals pc ctx out.0

module _ (crates : Crates) where
  after_write-Serves :
      (ctx : LoggerThreadCtx) (t : Thread) (logs : List LogData) (r : LoggerThreadCtx × IoResult)
      → (r.1 ≡ none) × Healthy r.0
      → Frame ctx r.0
      → Serves ctx (writing logs) (after_write crates t logs r)
  unfolding after_write
  after_write-Serves ctx t logs (c, none) h f = record {
    healthy = h.1;
    alive = tt;
    signal = f.signal;
  }
  after_write-Serves ctx t logs (c, some e) h f = absurd (ground (arith, h.0))

  after_hand-Serves :
      (ctx : LoggerThreadCtx) (t : Thread) (log : LogData) (rest : List LogData)
      (r : LoggerThreadCtx × Option LoggerError)
      → (r.1 ≡ none) × Healthy r.0
      → Frame ctx r.0
      → Serves ctx (handing (log ∷ rest)) (after_hand crates t rest r)
  unfolding after_hand
  after_hand-Serves ctx t log rest (c, none) h f = record {
    healthy = h.1;
    alive = tt;
    signal = f.signal;
  }
  after_hand-Serves ctx t log rest (c, some e) h f = absurd (ground (arith, h.0))

  after_flush-Serves :
      (ctx : LoggerThreadCtx) (t : Thread) (r : LoggerThreadCtx × IoResult)
      → (r.1 ≡ none) × Healthy r.0
      → Frame ctx r.0
      → Serves ctx flushing (after_flush crates t r)
  unfolding after_flush
  after_flush-Serves ctx t (c, none) h f = record { healthy = h.1; alive = tt; signal = f.signal }
  after_flush-Serves ctx t (c, some e) h f = absurd (ground (arith, h.0))

  wake-Serves :
      (ctx : LoggerThreadCtx) (t : Thread) (o : Option Bool)
      → Healthy ctx
      → OnSome (Serves ctx waiting) (wake crates ctx t o)
  unfolding wake end_round
  wake-Serves ctx t none h = tt
  wake-Serves ctx t (some flag) h = record {
    healthy = Healthy-queue ctx.log_queue flag h;
    alive = tt;
    signal = tt;
  }

  module _ (laws : IsChunks crates.chunks) where
    -- With a positive limit the cutting of a batch does not panic.
    cut-Serves :
        (ctx : LoggerThreadCtx) (t : Thread) (b : List LogData) (n : ℕ)
        → ctx.config.max_string_len ≡ n
        → 0 < n
        → Healthy ctx
        → Serves ctx (taken b) (ctx, after_split crates t (split_str_into_chunks crates.chunks b n))
    unfolding after_split
    cut-Serves ctx t b zero e p h = absurd (omega (arith, p))
    cut-Serves ctx t b (suc n) e p h =
        let (out, cut, pieces) = split_str_into_chunks-CutOf laws n b in
        rw cut (record { healthy = h; alive = tt; signal = refl })

    step_at-Serves :
        (ctx : LoggerThreadCtx) (t : Thread) (pc : Pc)
        → Healthy ctx
        → IsAlive pc
        → OnSome (Serves ctx pc) (step_at crates ctx t pc)
    unfolding step_at take_batch end_round
    step_at-Serves ctx t top h a = record {
      healthy = Healthy-queue (take_vec t.guard.rest).vec.items ctx.log_signal h;
      alive = tt;
      signal = refl;
    }
    step_at-Serves ctx t (taken []) h a = record { healthy = h; alive = tt; signal = refl }
    step_at-Serves ctx t (taken (x ∷ q)) h a =
        cut-Serves ctx t (x ∷ q) ctx.config.max_string_len refl h.limit h
    step_at-Serves ctx t (writing logs) h a =
        after_write-Serves ctx t logs _ (do_log_batch-Healthy crates.format_time logs ctx h)
          (do_log_batch-Frame crates.format_time logs ctx)
    step_at-Serves ctx t (handing []) h a = record { healthy = h; alive = tt; signal = refl }
    step_at-Serves ctx t (handing (l ∷ ls)) h a =
        after_hand-Serves ctx t l ls _ (sink_log-Healthy l ctx h) (sink_log-Frame l ctx)
    step_at-Serves ctx t checking h a = record {
      healthy = h;
      alive = if-both IsAlive (is_empty ctx.log_queue || leb 100 t.logged) flushing deciding tt tt;
      signal = refl;
    }
    step_at-Serves ctx t flushing h a =
        after_flush-Serves ctx t _ (flush-Healthy ctx h) (flush-Frame ctx)
    step_at-Serves ctx t deciding h a = record {
      healthy = h;
      alive =
          if-both (λ u. IsAlive u.pc) (is_empty ctx.log_queue) (record t { pc = waiting })
            (end_round t) tt tt;
      signal = refl;
    }
    step_at-Serves ctx t waiting h a = wake-Serves ctx t (wait ctx.log_signal) h
    step_at-Serves ctx t (failed e) h a = absurd a
    step_at-Serves ctx t (reporting e) h a = absurd a
    step_at-Serves ctx t (stopped e) h a = absurd a
    step_at-Serves ctx t panicked h a = absurd a

    -- No step of a thread in a healthy logger fails or panics.
    pub thread_step-Serves :
        (ctx : LoggerThreadCtx) (t : Thread)
        → Healthy ctx
        → IsAlive t.pc
        → OnSome (Serves ctx t.pc) (thread_step crates ctx t)
    unfolding thread_step
    thread_step-Serves ctx t h a = step_at-Serves ctx t t.pc h a

  -- In the wait, with the signal set, the thread takes the signal and ends its round.
  pub thread_step-wakes :
      (ctx : LoggerThreadCtx) (t : Thread)
      → t.pc ≡ waiting
      → ctx.log_signal ≡ true
      → thread_step crates ctx t ≡ some (record ctx { log_signal = false }, end_round t)
  unfolding thread_step step_at wake
  thread_step-wakes ctx t sleeps set =
      ap (step_at crates ctx t) sleeps ∙ ap (λ flag. wake crates ctx t (wait flag)) set

  pub thread_step-sleeps :
      (ctx : LoggerThreadCtx) (t : Thread)
      → t.pc ≡ waiting
      → ctx.log_signal ≡ false
      → thread_step crates ctx t ≡ none
  unfolding thread_step step_at wake
  thread_step-sleeps ctx t sleeps unset =
      ap (step_at crates ctx t) sleeps ∙ ap (λ flag. wake crates ctx t (wait flag)) unset
