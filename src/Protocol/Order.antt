-- ===== src/Protocol/Order.antt =====
-- The queue between the clients and the logging thread, whatever the interleaving.
use paperlog.Base.{◌≡◌, List, [], ◌++◌, some, OnSome-some, append_assoc, ap, sym, ◌∙◌}
use paperlog.LogData.{LogData}
use paperlog.VecPool.Laws.{with_initial_amount-IsClean}
use paperlog.LoggerThreadCtx.{LoggerThreadCtx}
use paperlog.LogThread.{Crates, start_thread, thread_step, takes}
use paperlog.LogThread.Order.{HasCleanPool, Keeps, thread_step-Keeps}
use paperlog.Protocol.{System, Event, run, start}
use paperlog.Protocol.Schedules.{run-keeps, All-any}
use paperlog.Protocol.Moves.{
  Move, queues, signalled, stepped, requests, waits, wakes, gives_up, administers,
}

pub record InOrder (s : System) : Type 0 where
  pub clean : HasCleanPool s.thread
  pub whole : s.queued ≡ s.took ++ s.ctx.log_queue

module _ (crates : Crates) where
  pub Move-InOrder : {e : Event} {s t : System} → Move crates e s t → InOrder s → InOrder t
  Move-InOrder {s = s} (queues logs b free eq) p = rw eq (record {
    clean = p.clean;
    whole = ap (λ (l : List LogData). l ++ logs) p.whole ∙ append_assoc s.took s.ctx.log_queue logs;
  })
  Move-InOrder {s = s} (stepped ctx thread moved free eq) p =
      let k =
        OnSome-some (Keeps crates s.ctx s.thread.pc) (thread_step crates s.ctx s.thread)
          (thread_step-Keeps crates s.ctx s.thread p.clean) moved in
      rw eq (record {
        clean = k.clean;
        whole =
            p.whole
            ∙ ap (◌++◌ s.took) (sym k.queue)
            ∙ sym (append_assoc s.took (takes s.thread.pc s.ctx) ctx.log_queue);
      })
  Move-InOrder {s} {t} (administers ctx free quiet o keeps spares eq) p =
      rw eq (record { clean = p.clean; whole = p.whole ∙ ap (◌++◌ s.took) (sym o.queue) })
  Move-InOrder {s = s} (signalled n h eq) p = rw eq (record { clean = p.clean; whole = p.whole })
  Move-InOrder (requests w h eq) p = rw eq (record { clean = p.clean; whole = p.whole })
  Move-InOrder (waits w d a h eq) p = rw eq (record { clean = p.clean; whole = p.whole })
  Move-InOrder (wakes w d a h eq) p = rw eq (record { clean = p.clean; whole = p.whole })
  Move-InOrder (gives_up d h eq) p = rw eq (record { clean = p.clean; whole = p.whole })

  pub start-InOrder : (ctx : LoggerThreadCtx) → ctx.log_queue ≡ [] → InOrder (start ctx)
  unfolding start start_thread
  start-InOrder ctx e = record { clean = with_initial_amount-IsClean LogData 2 1024; whole = sym e }

  pub run-InOrder :
      (ctx : LoggerThreadCtx) (es : List Event) (s : System)
      → ctx.log_queue ≡ []
      → run crates es (start ctx) ≡ some s
      → InOrder s
  run-InOrder ctx es s e ran =
      run-keeps crates InOrder (λ _. Unit {0}) (λ e s t _ m p. Move-InOrder m p) es (start ctx) s
        (All-any es) (start-InOrder ctx e) ran

  -- From a logger with an empty queue, after any schedule, the entries that were queued are, in
  -- order, those that the thread took and then those that stand in the queue.
  pub queued-split :
      (ctx : LoggerThreadCtx) (es : List Event) (s : System)
      → ctx.log_queue ≡ []
      → run crates es (start ctx) ≡ some s
      → s.queued ≡ s.took ++ s.ctx.log_queue
  queued-split ctx es s e ran = (run-InOrder ctx es s e ran).whole
