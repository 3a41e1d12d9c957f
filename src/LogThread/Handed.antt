-- ===== src/LogThread/Handed.antt =====
-- What the sinks have had, from the entries that the logging thread took. A sink may fail: that
-- ends the thread.
use paperlog.Base.{
  ℕ, ◌≡◌, refl, sym, ap, ◌∙◌, List, [], ◌∷◌, ◌++◌, Option, none, some, OnSome, if-both, is_empty,
  ◌||◌, leb, append-nil, append_assoc, Bool,
}
use paperlog.Io.{IoResult}
use paperlog.LoggerError.{LoggerError}
use paperlog.LogData.{LogData}
use paperlog.Chunks.{split_str_into_chunks}
use paperlog.Chunks.Laws.{split_str_into_chunks-append}
use paperlog.LoggerThreadCtx.{LoggerThreadCtx, wait}
use paperlog.LogThread.{
  Crates, Pc, top, taken, writing, handing, checking, flushing, deciding, waiting, failed,
  reporting, stopped, panicked, Thread, take_batch, after_split, after_write, after_hand, adds,
  after_flush, wake, end_round, step_at, thread_step, takes,
}

module _ (crates : Crates) where
  open crates use {chunks}

  -- What a sink has had, where the thread stands at `pc` and took the entries `took`: their pieces,
  -- but for those still in hand. Once the thread has failed or panicked nothing is claimed.
  abbrev pub Handed : ℕ → Pc → List LogData → List LogData → Type 0
  Handed n (taken b) took got =
      (p : List LogData) × (took ≡ p ++ b) × (split_str_into_chunks chunks p n ≡ some got)
  Handed n (writing logs) took got =
      (p : List LogData) × (b : List LogData) × (took ≡ p ++ b)
      × (split_str_into_chunks chunks b n ≡ some logs)
      × (split_str_into_chunks chunks p n ≡ some got)
  Handed n (handing rest) took got = split_str_into_chunks chunks took n ≡ some (got ++ rest)
  Handed n (failed e) took got = Unit
  Handed n (reporting e) took got = Unit
  Handed n (stopped e) took got = Unit
  Handed n panicked took got = Unit
  Handed n _ took got = split_str_into_chunks chunks took n ≡ some got

  -- A step keeps this, with what it took and what it handed out added.
  abbrev pub PassesBy : ℕ → List LogData → List LogData → LoggerThreadCtx × Thread → Type 0
  PassesBy n took got out = Handed n out.1.pc took got

  after_split-Passes :
      (n : ℕ) (took p b got : List LogData) (t : Thread) (o : Option (List LogData))
      → took ≡ p ++ b
      → split_str_into_chunks chunks p n ≡ some got
      → split_str_into_chunks chunks b n ≡ o
      → Handed n (after_split crates t o).pc took got
  unfolding after_split
  after_split-Passes n took p b got t none e had cut = tt
  after_split-Passes n took p b got t (some logs) e had cut = (p, b, e, cut, had)

  after_write-Passes :
      (n : ℕ) (took got logs : List LogData) (t : Thread) (r : LoggerThreadCtx × IoResult)
      → Handed n (writing logs) took got
      → Handed n (after_write crates t logs r).1.pc took got
  unfolding after_write
  after_write-Passes n took got logs t (ctx, some e) h = tt
  after_write-Passes n took got logs t (ctx, none) (p, b, e, cut, had) =
      ap (λ l. split_str_into_chunks chunks l n) e
      ∙ split_str_into_chunks-append chunks n p b
      ∙ rw (had, cut) refl

  after_hand-Passes :
      (n : ℕ) (took got rest : List LogData) (log : LogData) (t : Thread)
      (r : LoggerThreadCtx × Option LoggerError)
      → Handed n (handing (log ∷ rest)) took got
      → Handed n (after_hand crates t rest r).1.pc took (got ++ log ∷ [])
  unfolding after_hand
  after_hand-Passes n took got rest log t (ctx, some e) h = tt
  after_hand-Passes n took got rest log t (ctx, none) h =
      h ∙ ap some (sym (append_assoc got (log ∷ []) rest))

  after_flush-Passes :
      (n : ℕ) (took got : List LogData) (t : Thread) (r : LoggerThreadCtx × IoResult)
      → Handed n flushing took got
      → Handed n (after_flush crates t r).1.pc took got
  unfolding after_flush
  after_flush-Passes n took got t (ctx, none) h = h
  after_flush-Passes n took got t (ctx, some e) h = tt

  wake-Passes :
      (n : ℕ) (took got : List LogData) (ctx : LoggerThreadCtx) (t : Thread) (o : Option Bool)
      → Handed n waiting took got
      → OnSome (PassesBy n took got) (wake crates ctx t o)
  unfolding wake end_round
  wake-Passes n took got ctx t none h = tt
  wake-Passes n took got ctx t (some flag) h = h

  step_at-Passes :
      (n : ℕ) (took got : List LogData) (ctx : LoggerThreadCtx) (t : Thread) (pc : Pc)
      → ctx.config.max_string_len ≡ n
      → Handed n pc took got
      → OnSome (PassesBy n (took ++ takes pc ctx) (got ++ adds pc)) (step_at crates ctx t pc)
  unfolding step_at end_round take_batch
  step_at-Passes n took got ctx t top c h = (took, refl, rw (append-nil got) h)
  step_at-Passes n took got ctx t (taken []) c (p, e, had) =
      rw (append-nil took, append-nil got)
        (ap (λ l. split_str_into_chunks chunks l n) (e ∙ append-nil p) ∙ had)
  step_at-Passes n took got ctx t (taken (x ∷ q)) c (p, e, had) =
      rw (append-nil took, append-nil got)
        (after_split-Passes n took p (x ∷ q) got t _ e had
          (ap (split_str_into_chunks chunks (x ∷ q)) (sym c)))
  step_at-Passes n took got ctx t (writing logs) c h =
      rw (append-nil took, append-nil got) (after_write-Passes n took got logs t _ h)
  step_at-Passes n took got ctx t (handing []) c h =
      rw (append-nil took, append-nil got) (h ∙ ap some (append-nil got))
  step_at-Passes n took got ctx t (handing (l ∷ ls)) c h =
      rw (append-nil took) (after_hand-Passes n took got ls l t _ h)
  step_at-Passes n took got ctx t checking c h =
      rw (append-nil took, append-nil got)
        (if-both (λ pc. Handed n pc took got) (is_empty ctx.log_queue || leb 100 t.logged) flushing
          deciding h h)
  step_at-Passes n took got ctx t flushing c h =
      rw (append-nil took, append-nil got) (after_flush-Passes n took got t _ h)
  step_at-Passes n took got ctx t deciding c h =
      rw (append-nil took, append-nil got)
        (if-both (λ (u : Thread). Handed n u.pc took got) (is_empty ctx.log_queue)
          (record t { pc = waiting }) (end_round t) h h)
  step_at-Passes n took got ctx t waiting c h =
      rw (append-nil took, append-nil got) (wake-Passes n took got ctx t (wait ctx.log_signal) h)
  step_at-Passes n took got ctx t (failed x) c h = tt
  step_at-Passes n took got ctx t (reporting x) c h = tt
  step_at-Passes n took got ctx t (stopped x) c h = tt
  step_at-Passes n took got ctx t panicked c h = tt

  -- A step that starts where this holds ends where it holds.
  pub thread_step-Passes :
      (n : ℕ) (took got : List LogData) (ctx : LoggerThreadCtx) (t : Thread)
      → ctx.config.max_string_len ≡ n
      → Handed n t.pc took got
      → OnSome (PassesBy n (took ++ takes t.pc ctx) (got ++ adds t.pc)) (thread_step crates ctx t)
  unfolding thread_step
  thread_step-Passes n took got ctx t c h = step_at-Passes n took got ctx t t.pc c h
