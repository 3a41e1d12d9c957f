-- ===== src/LogThread/Settles.antt =====
-- The logging thread left alone: no client queues, waits or signals while it runs.
use paperlog.Base.{
  ◌≡◌, refl, sym, ap, ◌∙◌, inl, inr, List, [], ◌∷◌, ◌++◌, Option, none, some, OnSome-some,
  Bool-cases, is_empty, leb, ◌||◌, append_cancel_left, append-nil,
}
use paperlog.Io.{IoResult}
use paperlog.LoggerError.{LoggerError, io_error, flush_error}
use paperlog.LogData.{LogData}
use paperlog.LoggerThreadCtx.{LoggerThreadCtx, flush}
use paperlog.Chunks.{split_str_into_chunks}
use paperlog.FileLogger
use paperlog.SinkLogger
use paperlog.LogThread.{
  Crates, Pc, top, taken, writing, handing, checking, flushing, deciding, waiting, failed,
  reporting, stopped, panicked, Thread, take_batch, after_split, after_write, after_hand,
  after_flush, end_round, step_at, thread_step, takes,
}
use paperlog.LogThread.Order.{HasCleanPool, Keeps, thread_step-Keeps}

-- The thread makes no step on its own, or waits for the queue's signal.
pub data Rests : Pc → Type 0 where
  asleep : Rests waiting
  ended : (e : LoggerError) → Rests (stopped e)
  dead : Rests panicked

-- Finitely many steps of the thread lead to such a place.
pub data Settles (crates : Crates) : LoggerThreadCtx → Thread → Type 0 where
  rests : {ctx : LoggerThreadCtx} {t : Thread} → Rests t.pc → Settles crates ctx t
  steps :
      {ctx : LoggerThreadCtx} {t : Thread} (ctx' : LoggerThreadCtx) (t' : Thread)
      → thread_step crates ctx t ≡ some (ctx', t')
      → Settles crates ctx' t'
      → Settles crates ctx t

module _ (crates : Crates) where
  -- The state has the queue `q` and a clean pool, and the thread is at `pc`.
  record At (q : List LogData) (pc : Pc) (ctx : LoggerThreadCtx) (t : Thread) : Type 0 where
    clean : HasCleanPool t
    queue : ctx.log_queue ≡ q
    place : t.pc ≡ pc

  abbrev SettlesAt : List LogData → Pc → Type 0
  SettlesAt q pc = (ctx : LoggerThreadCtx) (t : Thread) → At q pc ctx t → Settles crates ctx t

  -- One step, known by its result, from a place that takes nothing.
  after :
      (q : List LogData) (pc next : Pc) (ctx : LoggerThreadCtx) (t : Thread)
      (out : LoggerThreadCtx × Thread)
      → takes pc ctx ≡ []
      → At q pc ctx t
      → step_at crates ctx t pc ≡ some out
      → out.1.pc ≡ next
      → SettlesAt q next
      → Settles crates ctx t
  unfolding thread_step
  after q pc next ctx t out nothing a moved e k =
      let step : thread_step crates ctx t ≡ some out = ap (step_at crates ctx t) a.place ∙ moved in
      let keeps =
        OnSome-some (Keeps crates ctx t.pc) (thread_step crates ctx t)
          (thread_step-Keeps crates ctx t a.clean) step in
      let taken_none : takes t.pc ctx ≡ [] = ap (λ p. takes p ctx) a.place ∙ nothing in
      let left : out.0.log_queue ≡ q =
        ap (λ (l : List LogData). l ++ out.0.log_queue) (sym taken_none) ∙ keeps.queue ∙ a.queue in
      steps out.0 out.1 step
        (k out.0 out.1 (record { clean = keeps.clean; queue = left; place = e }))

  at-Rests : (q : List LogData) (pc : Pc) → Rests pc → SettlesAt q pc
  at-Rests q pc r ctx t a = rests (rw a.place r)

  module _ (q : List LogData) where
    at-reporting : (e : LoggerError) → SettlesAt q (reporting e)
    unfolding step_at
    at-reporting e ctx t a =
        after q (reporting e) (stopped e) ctx t _ refl a refl refl
          (at-Rests q (stopped e) (ended e))

    at-failed : (e : LoggerError) → SettlesAt q (failed e)
    unfolding step_at
    at-failed e ctx t a = after q (failed e) (reporting e) ctx t _ refl a refl refl (at-reporting e)

    module _ (decides : SettlesAt q deciding) where
      flushed :
          (ctx : LoggerThreadCtx) (t : Thread) (r : LoggerThreadCtx × IoResult)
          → At q flushing ctx t
          → flush ctx ≡ r
          → Settles crates ctx t
      unfolding step_at after_flush
      flushed ctx t (c, none) a e =
          after q flushing deciding ctx t (after_flush crates t (c, none)) refl a (rw e refl) refl
            decides
      flushed ctx t (c, some x) a e =
          after q flushing (failed (flush_error x)) ctx t (after_flush crates t (c, some x)) refl a
            (rw e refl) refl (at-failed (flush_error x))

      at-flushing : SettlesAt q flushing
      at-flushing ctx t a = flushed ctx t (flush ctx) a refl

      at-checking : SettlesAt q checking
      unfolding step_at
      at-checking ctx t a = elim (Bool-cases (is_empty ctx.log_queue || leb 100 t.logged)) [
        | inl hit ↦
            after q checking flushing ctx t (ctx, record t { pc = flushing }) refl a (rw hit refl)
              refl at-flushing
        | inr miss ↦
            after q checking deciding ctx t (ctx, record t { pc = deciding }) refl a (rw miss refl)
              refl decides
      ]

      handed :
          (log : LogData) (rest : List LogData) (ctx : LoggerThreadCtx) (t : Thread)
          (r : LoggerThreadCtx × Option LoggerError)
          → SettlesAt q (handing rest)
          → At q (handing (log ∷ rest)) ctx t
          → SinkLogger.do_log log ctx ≡ r
          → Settles crates ctx t
      unfolding step_at after_hand
      handed log rest ctx t (c, none) k a e =
          after q (handing (log ∷ rest)) (handing rest) ctx t (after_hand crates t rest (c, none))
            refl a (rw e refl) refl k
      handed log rest ctx t (c, some x) k a e =
          after q (handing (log ∷ rest)) (failed x) ctx t (after_hand crates t rest (c, some x))
            refl a (rw e refl) refl (at-failed x)

      at-handing : (logs : List LogData) → SettlesAt q (handing logs)
      unfolding step_at
      at-handing [] ctx t a = after q (handing []) checking ctx t _ refl a refl refl at-checking
      at-handing (log ∷ rest) ctx t a =
          handed log rest ctx t (SinkLogger.do_log log ctx) (at-handing rest) a refl

      written :
          (logs : List LogData) (ctx : LoggerThreadCtx) (t : Thread)
          (r : LoggerThreadCtx × IoResult)
          → At q (writing logs) ctx t
          → FileLogger.do_log_batch crates.format_time logs ctx ≡ r
          → Settles crates ctx t
      unfolding step_at after_write
      written logs ctx t (c, none) a e =
          after q (writing logs) (handing logs) ctx t (after_write crates t logs (c, none)) refl a
            (rw e refl) refl (at-handing logs)
      written logs ctx t (c, some x) a e =
          after q (writing logs) (failed (io_error x)) ctx t (after_write crates t logs (c, some x))
            refl a (rw e refl) refl (at-failed (io_error x))

      at-writing : (logs : List LogData) → SettlesAt q (writing logs)
      at-writing logs ctx t a =
          written logs ctx t (FileLogger.do_log_batch crates.format_time logs ctx) a refl

      split :
          (b : List LogData) (ctx : LoggerThreadCtx) (t : Thread) (o : Option (List LogData))
          → At q (taken b) ctx t
          → step_at crates ctx t (taken b) ≡ some (ctx, after_split crates t o)
          → Settles crates ctx t
      unfolding after_split
      split b ctx t none a e =
          after q (taken b) panicked ctx t _ refl a e refl (at-Rests q panicked dead)
      split b ctx t (some logs) a e =
          after q (taken b) (writing logs) ctx t _ refl a e refl (at-writing logs)

      at-taken : (b : List LogData) → SettlesAt q (taken b)
      unfolding step_at
      at-taken [] ctx t a = after q (taken []) checking ctx t _ refl a refl refl at-checking
      at-taken (log ∷ b) ctx t a =
          split (log ∷ b) ctx t
            (split_str_into_chunks crates.chunks (log ∷ b) ctx.config.max_string_len) a refl

  -- With an empty queue the thread goes to sleep.
  empty-deciding : SettlesAt [] deciding
  unfolding step_at
  empty-deciding ctx t a =
      after [] deciding waiting ctx t (ctx, record t { pc = waiting }) refl a (rw a.queue refl) refl
        (at-Rests [] waiting asleep)

  -- The head of the loop empties the queue.
  at-top : (q : List LogData) → SettlesAt q top
  unfolding thread_step step_at take_batch
  at-top q ctx t a =
      let out = take_batch crates ctx t in
      let step : thread_step crates ctx t ≡ some out = ap (step_at crates ctx t) a.place in
      let keeps =
        OnSome-some (Keeps crates ctx t.pc) (thread_step crates ctx t)
          (thread_step-Keeps crates ctx t a.clean) step in
      let took : takes t.pc ctx ≡ ctx.log_queue = ap (λ p. takes p ctx) a.place in
      let whole : ctx.log_queue ++ out.0.log_queue ≡ ctx.log_queue ++ [] =
        ap (λ (l : List LogData). l ++ out.0.log_queue) (sym took)
        ∙ keeps.queue
        ∙ sym (append-nil ctx.log_queue) in
      let left = append_cancel_left ctx.log_queue out.0.log_queue [] whole in
      steps out.0 out.1 step (
        at-taken [] empty-deciding ctx.log_queue out.0 out.1
          (record { clean = keeps.clean; queue = left; place = refl }))

  at-deciding : (q : List LogData) → SettlesAt q deciding
  unfolding step_at
  at-deciding [] ctx t a = empty-deciding ctx t a
  at-deciding (log ∷ q) ctx t a =
      after (log ∷ q) deciding top ctx t (ctx, end_round t) refl a (rw a.queue refl) refl
        (at-top (log ∷ q))

  at-place : (q : List LogData) (pc : Pc) → SettlesAt q pc
  at-place q top = at-top q
  at-place q (taken b) = at-taken q (at-deciding q) b
  at-place q (writing logs) = at-writing q (at-deciding q) logs
  at-place q (handing logs) = at-handing q (at-deciding q) logs
  at-place q checking = at-checking q (at-deciding q)
  at-place q flushing = at-flushing q (at-deciding q)
  at-place q deciding = at-deciding q
  at-place q waiting = at-Rests q waiting asleep
  at-place q (failed e) = at-failed q e
  at-place q (reporting e) = at-reporting q e
  at-place q (stopped e) = at-Rests q (stopped e) (ended e)
  at-place q panicked = at-Rests q panicked dead

  -- From any place and with any queue, if its pool is clean, the thread left alone comes in finitely
  -- many steps to its wait for the signal, or to its end by an error or a panic.
  pub thread-Settles : (ctx : LoggerThreadCtx) (t : Thread) → HasCleanPool t → Settles crates ctx t
  thread-Settles ctx t clean =
      at-place ctx.log_queue t.pc ctx t (record { clean = clean; queue = refl; place = refl })
