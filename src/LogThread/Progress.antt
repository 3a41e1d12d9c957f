-- ===== src/LogThread/Progress.antt =====
-- How far a file is, from the entries that the logging thread took. Any write may fail: that ends the
-- thread.
use paperlog.Base.{
  ℕ, ◌≡◌, refl, sym, ap, subst, ◌∙◌, List, [], ◌∷◌, ◌++◌, Option, none, some, append-nil, OnSome,
  is_empty, Bool, ◌||◌, leb, if-both,
}
use paperlog.Io.{IoResult}
use paperlog.LogData.{LogData}
use paperlog.LoggerError.{LoggerError}
use paperlog.Chunks.{split_str_into_chunks}
use paperlog.Chunks.Laws.{split_str_into_chunks-append}
use paperlog.LoggerThreadCtx.{LoggerThreadCtx, Sink, flush, wait}
use paperlog.FileLogger
use paperlog.SinkLogger
use paperlog.LogThread.{
  Crates, Pc, top, taken, writing, handing, checking, flushing, deciding, waiting, failed,
  reporting, stopped, panicked, Thread, after_split, after_write, after_hand, after_flush, wake,
  end_round, step_at, thread_step, takes,
}

-- A part of the state that only the batches of the file backend change, and when it has what the
-- pieces `out` add to it.
pub record FileView (crates : Crates) (V : Type 0) : Type 1 where
  pub view : LoggerThreadCtx → V
  pub Has : List LogData → V → Type 0
  pub wrote :
      (logs out : List LogData) (ctx : LoggerThreadCtx)
      → Has out (view ctx)
      → (FileLogger.do_log_batch crates.format_time logs ctx).1 ≡ none
      → Has (out ++ logs) (view (FileLogger.do_log_batch crates.format_time logs ctx).0)
  pub flushed : (ctx : LoggerThreadCtx) → view (flush ctx).0 ≡ view ctx
  pub handed :
      (ctx : LoggerThreadCtx) (sinks : List Sink) → view (record ctx { sinks = sinks }) ≡ view ctx
  pub queued :
      (ctx : LoggerThreadCtx) (queue : List LogData) (signal : Bool)
      → view (record ctx { log_queue = queue; log_signal = signal }) ≡ view ctx

module _ (crates : Crates) {V : Type 0} (file : FileView crates V) (n : ℕ) where
  open crates use {chunks}
  open file use {view, Has}

  -- The file has what the entries print, once they are cut up.
  abbrev pub HasAll : List LogData → V → Type 0
  HasAll logs v =
      (out : List LogData) × (split_str_into_chunks chunks logs n ≡ some out) × Has out v

  HasAll-append :
      (p b out : List LogData) (ctx : LoggerThreadCtx)
      → HasAll p (view ctx)
      → split_str_into_chunks chunks b n ≡ some out
      → (FileLogger.do_log_batch crates.format_time out ctx).1 ≡ none
      → HasAll (p ++ b) (view (FileLogger.do_log_batch crates.format_time out ctx).0)
  HasAll-append p b out ctx (q, e, h) cut fine = (
    q ++ out,
    split_str_into_chunks-append chunks n p b ∙ rw (e, cut),
    file.wrote out q ctx h fine,
  )

  -- Where the thread stands at `pc` and took the entries `took`: the file has what they print, but
  -- for the batch in hand. Once the thread has failed or panicked nothing is claimed.
  abbrev pub Progress : Pc → List LogData → V → Type 0
  Progress (taken b) took v = (p : List LogData) × (took ≡ p ++ b) × HasAll p v
  Progress (writing logs) took v =
      (p : List LogData) × (b : List LogData) × (took ≡ p ++ b)
      × (split_str_into_chunks chunks b n ≡ some logs)
      × HasAll p v
  Progress (failed e) took v = Unit
  Progress (reporting e) took v = Unit
  Progress (stopped e) took v = Unit
  Progress panicked took v = Unit
  Progress _ took v = HasAll took v

  abbrev pub ProgressBy : List LogData → LoggerThreadCtx × Thread → Type 0
  ProgressBy took out = Progress out.1.pc took (view out.0)

  after_split-Progress :
      (took p b : List LogData) (ctx : LoggerThreadCtx) (t : Thread) (o : Option (List LogData))
      → took ≡ p ++ b
      → HasAll p (view ctx)
      → split_str_into_chunks chunks b n ≡ o
      → ProgressBy took (ctx, after_split crates t o)
  unfolding after_split
  after_split-Progress took p b ctx t none e w s = tt
  after_split-Progress took p b ctx t (some logs) e w s = (p, b, e, s, w)

  after_write-Progress :
      (took logs : List LogData) (t : Thread) (r : LoggerThreadCtx × IoResult)
      → (r.1 ≡ none → HasAll took (view r.0))
      → ProgressBy took (after_write crates t logs r)
  unfolding after_write
  after_write-Progress took logs t (ctx, none) h = h refl
  after_write-Progress took logs t (ctx, some e) h = tt

  after_hand-Progress :
      (took rest : List LogData) (t : Thread) (r : LoggerThreadCtx × Option LoggerError)
      → HasAll took (view r.0)
      → ProgressBy took (after_hand crates t rest r)
  unfolding after_hand
  after_hand-Progress took rest t (ctx, none) h = h
  after_hand-Progress took rest t (ctx, some e) h = tt

  after_flush-Progress :
      (took : List LogData) (t : Thread) (r : LoggerThreadCtx × IoResult)
      → HasAll took (view r.0)
      → ProgressBy took (after_flush crates t r)
  unfolding after_flush
  after_flush-Progress took t (ctx, none) h = h
  after_flush-Progress took t (ctx, some e) h = tt

  wake-Progress :
      (took : List LogData) (ctx : LoggerThreadCtx) (t : Thread) (o : Option Bool)
      → HasAll took (view ctx)
      → OnSome (ProgressBy took) (wake crates ctx t o)
  unfolding wake end_round
  wake-Progress took ctx t none h = tt
  wake-Progress took ctx t (some flag) h =
      subst (HasAll took) (sym (file.queued ctx ctx.log_queue flag)) h

  step_at-Progress :
      (took : List LogData) (ctx : LoggerThreadCtx) (t : Thread) (pc : Pc)
      → ctx.config.max_string_len ≡ n
      → Progress pc took (view ctx)
      → OnSome (ProgressBy (took ++ takes pc ctx)) (step_at crates ctx t pc)
  unfolding step_at end_round SinkLogger.do_log
  step_at-Progress took ctx t top c w =
      (took, refl, subst (HasAll took) (sym (file.queued ctx _ ctx.log_signal)) w)
  step_at-Progress took ctx t (taken []) c (p, e, w) =
      let eq : took ++ [] ≡ p = append-nil took ∙ e ∙ append-nil p in rw eq w
  step_at-Progress took ctx t (taken (x ∷ q)) c (p, e, w) = rw append-nil (
      after_split-Progress took p (x ∷ q) ctx t _ e w
        (ap (split_str_into_chunks chunks (x ∷ q)) (sym c)))
  step_at-Progress took ctx t (writing logs) c (p, b, e, s, w) =
      rw append-nil
        (after_write-Progress took logs t _ λ fine. rw e (HasAll-append p b logs ctx w s fine))
  step_at-Progress took ctx t (handing []) c w = rw append-nil w
  step_at-Progress took ctx t (handing (l ∷ ls)) c w = rw append-nil (
      after_hand-Progress took ls t _
        (subst (HasAll took) (sym (file.handed ctx (SinkLogger.do_log l ctx).0.sinks)) w))
  step_at-Progress took ctx t checking c w = rw append-nil (
      if-both (λ pc. ProgressBy took (ctx, record t { pc = pc }))
        (is_empty ctx.log_queue || leb 100 t.logged) flushing deciding w w)
  step_at-Progress took ctx t flushing c w =
      rw append-nil (after_flush-Progress took t _ (subst (HasAll took) (sym (file.flushed ctx)) w))
  step_at-Progress took ctx t deciding c w = rw append-nil (
      if-both (λ u. ProgressBy took (ctx, u)) (is_empty ctx.log_queue) (record t { pc = waiting })
        (end_round t) w w)
  step_at-Progress took ctx t waiting c w =
      rw append-nil (wake-Progress took ctx t (wait ctx.log_signal) w)
  step_at-Progress took ctx t (failed x) c w = tt
  step_at-Progress took ctx t (reporting x) c w = tt
  step_at-Progress took ctx t (stopped x) c w = tt
  step_at-Progress took ctx t panicked c w = tt

  -- A step that starts where this holds ends where it holds, with what it took added.
  pub thread_step-Progress :
      (took : List LogData) (ctx : LoggerThreadCtx) (t : Thread)
      → ctx.config.max_string_len ≡ n
      → Progress t.pc took (view ctx)
      → OnSome (ProgressBy (took ++ takes t.pc ctx)) (thread_step crates ctx t)
  unfolding thread_step
  thread_step-Progress took ctx t c w = step_at-Progress took ctx t t.pc c w
