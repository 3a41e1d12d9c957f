-- ===== src/LogThread/Sinks.antt =====
-- The sinks along the steps of the logging thread. A sink may fail: that ends the thread.
use paperlog.Base.{
  ℕ, ◌≡◌, refl, sym, ap, ◌∙◌, List, [], ◌∷◌, ◌++◌, map, length, Option, none, some, OnSome,
  OnSome-some, All, is_empty, ◌||◌, leb, if◌then◌else◌, inl, inr, Bool, arith,
}
use mathlib.Core.List.{map-append}
use paperlog.Io.{IoResult}
use paperlog.LoggerError.{LoggerError}
use paperlog.LogData.{LogData}
use paperlog.LoggerThreadCtx.{LoggerThreadCtx, Sink, flush, wait}
use paperlog.FileLogger
use paperlog.SinkLogger
use paperlog.SinkLogger.{called, call_sinks, Delivered, call_sinks-Delivered}
use paperlog.SinkLogger.Served.{served, served-nil}
use paperlog.LogThread.Frame.{flush-sinks, do_log_batch-sinks}
use paperlog.LogThread.Serves.{IsAlive}
use paperlog.LogThread.Handed.{Handed, PassesBy, thread_step-Passes}
use paperlog.LogThread.{
  Crates, Pc, top, taken, writing, handing, checking, flushing, deciding, waiting, failed,
  reporting, stopped, panicked, Thread, take_batch, split_batch, after_write, after_hand,
  after_flush, wake, end_round, step_at, thread_step, takes, adds,
}

-- A step of a thread that is alive behind it: it was before, and every sink has had what was handed
-- out.
pub record ServesAll (pc : Pc) (before after : List Sink) : Type 0 where
  pub was : IsAlive pc
  pub sinks : after ≡ map (served (adds pc)) before

module _ (crates : Crates) where
  -- So it is for the first `k` sinks; others were added later.
  pub record HandedTo (n k : ℕ) (pc : Pc) (took : List LogData) (sinks : List Sink) : Type 0 where
    pub first : List Sink
    pub later : List Sink
    pub all : sinks ≡ first ++ later
    pub many : length first ≡ k
    pub handed : All (λ sink. Handed crates n pc took sink.received) first

  abbrev pub HandedBy : ℕ → ℕ → List LogData → LoggerThreadCtx × Thread → Type 0
  HandedBy n k took out = IsAlive out.1.pc → HandedTo n k out.1.pc took out.0.sinks

  abbrev pub AllServed : Pc → LoggerThreadCtx → LoggerThreadCtx × Thread → Type 0
  AllServed pc ctx out = IsAlive out.1.pc → ServesAll pc ctx.sinks out.0.sinks

  still :
      (pc : Pc) (ctx : LoggerThreadCtx) (out : LoggerThreadCtx × Thread)
      → IsAlive pc
      → adds pc ≡ []
      → out.0.sinks ≡ ctx.sinks
      → AllServed pc ctx out
  still pc ctx out alive nothing same = λ a. record {
    was = alive;
    sinks = same ∙ sym (served-nil ctx.sinks) ∙ ap (λ l. map (served l) ctx.sinks) (sym nothing);
  }

  after_write-sinks :
      (logs : List LogData) (t : Thread) (r : LoggerThreadCtx × IoResult)
      → (after_write crates t logs r).0.sinks ≡ r.0.sinks
  unfolding after_write
  after_write-sinks logs t (ctx, none) = refl
  after_write-sinks logs t (ctx, some e) = refl

  after_flush-sinks :
      (t : Thread) (r : LoggerThreadCtx × IoResult) → (after_flush crates t r).0.sinks ≡ r.0.sinks
  unfolding after_flush
  after_flush-sinks t (ctx, none) = refl
  after_flush-sinks t (ctx, some e) = refl

  after_hand-AllServed :
      (log : LogData) (rest : List LogData) (ctx : LoggerThreadCtx) (t : Thread)
      (r : List Sink × Option LoggerError)
      → Delivered log ctx.sinks r
      → AllServed
          (handing (log ∷ rest))
          ctx
          (after_hand crates t rest (record ctx { sinks = r.0 }, r.1))
  unfolding after_hand
  after_hand-AllServed log rest ctx t (sinks, some e) d = λ a. absurd a
  after_hand-AllServed log rest ctx t (sinks, none)
        (inr (front, s, back, e, split, accepted, fails, out)) =
      absurd (ground (arith, out))
  after_hand-AllServed log rest ctx t (sinks, none) (inl (accepted, out)) =
      λ a. record { was = tt; sinks = ap (λ p. p.0) out }

  wake-AllServed :
      (ctx : LoggerThreadCtx) (t : Thread) (o : Option Bool)
      → OnSome (AllServed waiting ctx) (wake crates ctx t o)
  unfolding wake
  wake-AllServed ctx t none = tt
  wake-AllServed ctx t (some flag) =
      still waiting ctx (record ctx { log_signal = flag }, end_round t) tt refl refl

  step_at-AllServed :
      (ctx : LoggerThreadCtx) (t : Thread) (pc : Pc)
      → OnSome (AllServed pc ctx) (step_at crates ctx t pc)
  unfolding step_at take_batch SinkLogger.do_log
  step_at-AllServed ctx t top = still top ctx (take_batch crates ctx t) tt refl refl
  step_at-AllServed ctx t (taken q) =
      still (taken q) ctx (ctx, split_batch crates ctx t q) tt refl refl
  step_at-AllServed ctx t (writing logs) =
      still (writing logs) ctx
        (after_write crates t logs (FileLogger.do_log_batch crates.format_time logs ctx)) tt refl
        (after_write-sinks logs t _ ∙ do_log_batch-sinks crates.format_time logs ctx)
  step_at-AllServed ctx t (handing []) =
      still (handing []) ctx (ctx, record t { pc = checking }) tt refl refl
  step_at-AllServed ctx t (handing (l ∷ ls)) =
      after_hand-AllServed l ls ctx t (call_sinks l ctx.sinks) (call_sinks-Delivered l ctx.sinks)
  step_at-AllServed ctx t checking =
      still checking ctx
        (
          ctx,
          record t {
            pc = if is_empty ctx.log_queue || leb 100 t.logged then flushing else deciding;
          },
        )
        tt refl refl
  step_at-AllServed ctx t flushing =
      still flushing ctx (after_flush crates t (flush ctx)) tt refl
        (after_flush-sinks t _ ∙ flush-sinks ctx)
  step_at-AllServed ctx t deciding =
      still deciding ctx
        (ctx, if is_empty ctx.log_queue then record t { pc = waiting } else end_round t) tt refl
        refl
  step_at-AllServed ctx t waiting = wake-AllServed ctx t (wait ctx.log_signal)
  step_at-AllServed ctx t (failed x) = λ a. absurd a
  step_at-AllServed ctx t (reporting x) = λ a. absurd a
  step_at-AllServed ctx t (stopped x) = tt
  step_at-AllServed ctx t panicked = tt

  pub thread_step-AllServed :
      (ctx : LoggerThreadCtx) (t : Thread) → OnSome (AllServed t.pc ctx) (thread_step crates ctx t)
  unfolding thread_step
  thread_step-AllServed ctx t = step_at-AllServed ctx t t.pc

  length-map : (f : Sink → Sink) (xs : List Sink) → length (map f xs) ≡ length xs
  length-map f [] = refl
  length-map f (x ∷ xs) = ground (arith, length-map f xs)

  -- What a step does to the entries that a sink has had, it does for every sink of a list.
  served-Handed :
      (n : ℕ) (took : List LogData) (ctx : LoggerThreadCtx) (t : Thread)
      (out : LoggerThreadCtx × Thread) (sinks : List Sink)
      → thread_step crates ctx t ≡ some out
      → ctx.config.max_string_len ≡ n
      → All (λ sink. Handed crates n t.pc took sink.received) sinks
      → All
          (λ sink. Handed crates n out.1.pc (took ++ takes t.pc ctx) sink.received)
          (map (served (adds t.pc)) sinks)
  served-Handed n took ctx t out [] moved c a = tt
  served-Handed n took ctx t out (sink ∷ sinks) moved c a = (
    OnSome-some (PassesBy crates n (took ++ takes t.pc ctx) (sink.received ++ adds t.pc))
        (thread_step crates ctx t) (thread_step-Passes crates n took sink.received ctx t c a.0)
        moved,
    served-Handed n took ctx t out sinks moved c a.1,
  )

  -- A step that starts where this holds ends where it holds, with what it took added.
  pub thread_step-Handed :
      (n k : ℕ) (took : List LogData) (ctx : LoggerThreadCtx) (t : Thread)
      (out : LoggerThreadCtx × Thread)
      → thread_step crates ctx t ≡ some out
      → ctx.config.max_string_len ≡ n
      → (IsAlive t.pc → HandedTo n k t.pc took ctx.sinks)
      → HandedBy n k (took ++ takes t.pc ctx) out
  thread_step-Handed n k took ctx t out moved c h = λ a.
      let all =
        OnSome-some (AllServed t.pc ctx) (thread_step crates ctx t) (thread_step-AllServed ctx t)
          moved a in
      let before = h all.was in
      let more = served (adds t.pc) in
      record {
        first = map more before.first;
        later = map more before.later;
        all = all.sinks ∙ ap (map more) before.all ∙ map-append more before.first before.later;
        many = length-map more before.first ∙ before.many;
        handed = served-Handed n took ctx t out before.first moved c before.handed;
      }
