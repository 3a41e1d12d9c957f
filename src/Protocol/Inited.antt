-- ===== src/Protocol/Inited.antt =====
-- The mark that the logger is initialised (`inited` of src/logger/logger_thread_ctx.rs), along a schedule.
use paperlog.Base.{ℕ, ◌≡◌, refl, ◌∙◌, List, some, OnSome-some}
use paperlog.LoggerThreadCtx.{LoggerThreadCtx}
use paperlog.LogThread.{Crates, thread_step}
use paperlog.LogThread.Order.{Keeps, thread_step-Keeps}
use paperlog.Protocol.{System, Event, run, start}
use paperlog.Protocol.Moves.{
  Move, queues, signalled, stepped, requests, waits, wakes, gives_up, administers,
}
use paperlog.Protocol.Record.{Recorded, Move-Recorded, IsNew, start-Recorded}
use paperlog.Protocol.Schedules.{run-keeps, All-any}

module _ (crates : Crates) where
  Move-inited :
      {n : ℕ} {e : Event} {s t : System}
      → Move crates e s t
      → Recorded crates n s
      → t.ctx.inited ≡ s.ctx.inited
  Move-inited (queues logs b free eq) r = rw eq refl
  Move-inited (signalled k h eq) r = rw eq refl
  Move-inited {s = s} (stepped ctx thread moved free eq) r =
      rw eq
        (OnSome-some (Keeps crates s.ctx s.thread.pc) (thread_step crates s.ctx s.thread)
          (thread_step-Keeps crates s.ctx s.thread r.order.clean) moved).inited
  Move-inited (requests w h eq) r = rw eq refl
  Move-inited (waits w d a h eq) r = rw eq refl
  Move-inited (wakes w d a h eq) r = rw eq refl
  Move-inited (gives_up d h eq) r = rw eq refl
  Move-inited (administers ctx free quiet out keeps spares eq) r = rw eq out.inited

  -- The mark stays as it was at the start.
  pub run-inited :
      (ctx : LoggerThreadCtx) (es : List Event) (s : System)
      → IsNew ctx
      → run crates es (start ctx) ≡ some s
      → s.ctx.inited ≡ ctx.inited
  unfolding start
  run-inited ctx es s new ran =
      let n = ctx.config.max_string_len in
      (run-keeps crates (λ s. Recorded crates n s × (s.ctx.inited ≡ ctx.inited)) (λ _. Unit {0})
        (λ e s t _ m p. (Move-Recorded crates n m p.0, Move-inited m p.0 ∙ p.1)) es (start ctx) s
        (All-any es) (start-Recorded crates ctx new, refl) ran).1
