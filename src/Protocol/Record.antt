-- ===== src/Protocol/Record.antt =====
-- What the global file holds in every state that a schedule reaches.
use paperlog.Base.{ℕ, ◌≡◌, refl, sym, ◌∙◌, List, [], ◌∷◌, ◌++◌, some, inl, inr, OnSome-some}
use paperlog.Chunks.{split_str_into_chunks}
use paperlog.LoggerThreadCtx.{LoggerThreadCtx}
use paperlog.LogThread.{Crates, Pc, deciding, waiting, start_thread, thread_step, takes}
use paperlog.LogThread.Order.{Keeps, thread_step-Keeps}
use paperlog.LogThread.Written.{Written, WrittenBy, thread_step-Written}
use paperlog.LogThread.Idle.{Idles, IdlesOut, thread_step-Idles}
use paperlog.Protocol.{System, Event, run, start}
use paperlog.Protocol.Schedules.{run-keeps, All-any}
use paperlog.Protocol.Order.{InOrder, Move-InOrder, start-InOrder}
use paperlog.Protocol.Moves.{
  Move, queues, signalled, stepped, requests, waits, wakes, gives_up, administers,
}

append-ne-nil {ℓ} : {A : Type ℓ} (xs ys : List A) → xs ++ ys ≡ [] → xs ≡ []
append-ne-nil [] ys e = refl
append-ne-nil (x ∷ xs) ys e = cc

-- A change by a client: what the thread left stays so.
Idles-change :
    (pc : Pc) (a b : LoggerThreadCtx)
    → (b.log_queue ≡ [] → a.log_queue ≡ [])
    → b.global_file ≡ a.global_file
    → Idles pc a
    → Idles pc b
Idles-change deciding a b q f (inl busy) = inl (λ e. busy (q e))
Idles-change deciding a b q f (inr flushed) = inr (rw f flushed)
Idles-change waiting a b q f i = rw f i
Idles-change _ a b q f i = tt

-- The record kept in the global file, for the limit `n` on a message's length.
pub record Recorded (crates : Crates) (n : ℕ) (s : System) : Type 0 where
  pub order : InOrder s
  pub limit : s.ctx.config.max_string_len ≡ n
  pub written : Written crates n s.thread.pc s.took s.ctx.global_file.text
  pub idle : Idles s.thread.pc s.ctx

module _ (crates : Crates) (n : ℕ) where
  -- A step of a client, of which only its effect on the state matters here.
  client-Recorded :
      (s t : System)
      → InOrder t
      → t.thread ≡ s.thread
      → t.took ≡ s.took
      → t.ctx.config ≡ s.ctx.config
      → (t.ctx.log_queue ≡ [] → s.ctx.log_queue ≡ [])
      → t.ctx.global_file ≡ s.ctx.global_file
      → Recorded crates n s
      → Recorded crates n t
  client-Recorded s t o th tk cf q f r = record {
    order = o;
    limit = rw cf r.limit;
    written = rw (th, tk, f) r.written;
    idle = rw th (Idles-change s.thread.pc s.ctx t.ctx q f r.idle);
  }

  pub Move-Recorded :
      {e : Event} {s t : System} → Move crates e s t → Recorded crates n s → Recorded crates n t
  Move-Recorded {s} {t} m r = by_move m (Move-InOrder crates m r.order)
    where
      by_move : {e : Event} → Move crates e s t → InOrder t → Recorded crates n t
      by_move (queues logs b free eq) o =
          client-Recorded s t o (rw eq) (rw eq) (rw eq) (rw eq (append-ne-nil s.ctx.log_queue logs))
            (rw eq) r
      by_move (signalled k h eq) o =
          client-Recorded s t o (rw eq) (rw eq) (rw eq) (rw eq (λ q. q)) (rw eq) r
      by_move (stepped ctx thread moved free eq) o =
          let step = thread_step crates s.ctx s.thread in
          let k =
            OnSome-some (Keeps crates s.ctx s.thread.pc) step
              (thread_step-Keeps crates s.ctx s.thread r.order.clean) moved in
          let w =
            OnSome-some (WrittenBy crates n (s.took ++ takes s.thread.pc s.ctx)) step
              (thread_step-Written crates n s.took s.ctx s.thread r.limit r.written) moved in
          let i =
            OnSome-some (IdlesOut crates) step (thread_step-Idles crates s.ctx s.thread r.idle)
              moved in
          record {
            order = o;
            limit = rw (eq, k.config) r.limit;
            written = rw eq w;
            idle = rw eq i.0;
          }
      by_move (requests w h eq) o =
          client-Recorded s t o (rw eq) (rw eq) (rw eq) (rw eq (λ q. q)) (rw eq) r
      by_move (waits w d a h eq) o =
          client-Recorded s t o (rw eq) (rw eq) (rw eq) (rw eq (λ q. q)) (rw eq) r
      by_move (wakes w d a h eq) o =
          client-Recorded s t o (rw eq) (rw eq) (rw eq) (rw eq (λ q. q)) (rw eq) r
      by_move (gives_up d h eq) o =
          client-Recorded s t o (rw eq) (rw eq) (rw eq) (rw eq (λ q. q)) (rw eq) r
      by_move (administers ctx free quiet out keeps spares eq) o =
          client-Recorded s t o (rw eq) (rw eq) (rw eq out.config) (rw eq (λ q. sym out.queue ∙ q))
            (rw eq out.file) r

-- A logger as `init` leaves it: nothing queued, nothing written.
pub record IsNew (ctx : LoggerThreadCtx) : Type 0 where
  pub queue : ctx.log_queue ≡ []
  pub file : ctx.global_file.text ≡ []

module _ (crates : Crates) where
  pub start-Recorded :
      (ctx : LoggerThreadCtx) → IsNew ctx → Recorded crates ctx.config.max_string_len (start ctx)
  unfolding start start_thread split_str_into_chunks
  start-Recorded ctx new = record {
    order = start-InOrder crates ctx new.queue;
    limit = refl;
    written = ([], refl, new.file);
    idle = tt;
  }

  pub run-Recorded :
      (ctx : LoggerThreadCtx) (es : List Event) (s : System)
      → IsNew ctx
      → run crates es (start ctx) ≡ some s
      → Recorded crates ctx.config.max_string_len s
  run-Recorded ctx es s new ran =
      let n = ctx.config.max_string_len in
      run-keeps crates (Recorded crates n) (λ _. Unit {0})
        (λ e s t _ m r. Move-Recorded crates n m r) es (start ctx) s (All-any es)
        (start-Recorded ctx new) ran

  -- From a new logger, in every state that a schedule reaches, the global file holds exactly what
  -- the entries taken print, in order, but for the batch in hand, as long as the thread has not
  -- failed or panicked: `Written` says it for each place of the thread. Writes may fail.
  pub run-Written :
      (ctx : LoggerThreadCtx) (es : List Event) (s : System)
      → IsNew ctx
      → run crates es (start ctx) ≡ some s
      → Written crates ctx.config.max_string_len s.thread.pc s.took s.ctx.global_file.text
  run-Written ctx es s new ran = (run-Recorded ctx es s new ran).written
