-- ===== src/Protocol/Quiet.antt =====
-- The signal of the queue, as long as no client waits for a flush: a logger that is quiet, and what
-- has become of its entries.
use paperlog.Base.{
  ℕ, ◌+◌, ◌≡◌, refl, sym, subst, ◌∙◌, false, List, [], some, arith, All, OnSome-some, append-nil,
}
use paperlog.LoggerThreadCtx.{LoggerThreadCtx}
use paperlog.LogThread.{Crates, waiting, start_thread, thread_step}
use paperlog.LogThread.Written.{Printed, Written}
use paperlog.LogThread.Idle.{IdlesOut, IsFlushed, Idles, thread_step-Idles}
use paperlog.Protocol.{System, Event, run, start}
use paperlog.Protocol.Schedules.{run-keeps}
use paperlog.Protocol.Record.{Recorded, Move-Recorded, IsNew, run-Recorded, start-Recorded}
use paperlog.Protocol.Clients.{Waits}
use paperlog.Protocol.Moves.{
  Move, queues, signalled, stepped, requests, waits, wakes, gives_up, administers,
}

-- The logging thread sleeps, its signal is not set, and no client is on the way to set it.
pub record IsQuiet (s : System) : Type 0 where
  pub sleeps : s.thread.pc ≡ waiting
  pub unset : s.ctx.log_signal ≡ false
  pub none_coming : s.pending ≡ 0

-- Nobody waits for a flush, and a quiet logger has an empty queue.
pub record Heard (s : System) : Type 0 where
  pub alone : s.waiters + s.timed ≡ 0
  pub heard : IsQuiet s → s.ctx.log_queue ≡ []

module _ (crates : Crates) where
  pub Move-Heard :
      {e : Event} {s t : System}
      → ¬ Waits e
      → Move crates e s t
      → Idles s.thread.pc s.ctx
      → Heard s
      → Heard t
  Move-Heard a (queues logs b free eq) i h =
      rw eq (record { alone = h.alone; heard = λ q. absurd (omega (arith, q.none_coming)) })
  Move-Heard a (signalled k p eq) i h =
      rw eq (record { alone = h.alone; heard = λ q. let unset = q.unset in cc })
  Move-Heard {s} a (stepped ctx thread moved free eq) i h =
      let step =
        OnSome-some (IdlesOut crates) (thread_step crates s.ctx s.thread)
          (thread_step-Idles crates s.ctx s.thread i) moved in
      rw eq (record { alone = h.alone; heard = λ q. step.1 q.sleeps })
  Move-Heard a (requests w p eq) i h = rw eq (record {
    alone = h.alone;
    heard =
        λ q. h.heard (record { sleeps = q.sleeps; unset = q.unset; none_coming = q.none_coming });
  })
  Move-Heard a (waits w d b p eq) i h = absurd (a b)
  Move-Heard a (wakes w d b p eq) i h = absurd (omega (arith, h.alone))
  Move-Heard a (gives_up d p eq) i h = absurd (omega (arith, h.alone))
  Move-Heard a (administers ctx free quiet out keeps spares eq) i h = rw eq (record {
    alone = h.alone;
    heard = λ q.
        out.queue
        ∙ h.heard (record {
          sleeps = q.sleeps;
          unset = sym out.signal ∙ q.unset;
          none_coming = q.none_coming;
        });
  })

  start-Heard : (ctx : LoggerThreadCtx) → Heard (start ctx)
  unfolding start start_thread
  start-Heard ctx = record { alone = refl; heard = λ q. let sleeps = q.sleeps in cc }

  pub run-Heard :
      (ctx : LoggerThreadCtx) (es : List Event) (s : System)
      → IsNew ctx
      → All (λ e. ¬ Waits e) es
      → run crates es (start ctx) ≡ some s
      → Heard s
  run-Heard ctx es s new a ran =
      let n = ctx.config.max_string_len in
      (run-keeps crates (λ s. Recorded crates n s × Heard s) (λ e. ¬ Waits e)
        (λ e s t b m p. (Move-Recorded crates n m p.0, Move-Heard b m p.0.idle p.1)) es (start ctx)
        s a (start-Recorded crates ctx new, start-Heard ctx) ran).1

  -- No wakeup is lost: from a new logger, by any schedule in which no client waits for a flush,
  -- when the logging thread sleeps, its signal is not set and no client is about to set it, then
  -- the queue is empty.
  no_lost_wakeup :
      (ctx : LoggerThreadCtx) (es : List Event) (s : System)
      → IsNew ctx
      → All (λ e. ¬ Waits e) es
      → run crates es (start ctx) ≡ some s
      → IsQuiet s
      → s.ctx.log_queue ≡ []
  no_lost_wakeup ctx es s new a ran q = (run-Heard ctx es s new a ran).heard q

  pub quiet-took :
      (n : ℕ) (s : System) → Recorded crates n s → Heard s → IsQuiet s → s.queued ≡ s.took
  quiet-took n s r h q = r.order.whole ∙ rw (h.heard q) (append-nil s.took)

  -- What has become of the entries once the logger is quiet.
  pub quiet-Printed :
      (n : ℕ) (s : System)
      → Recorded crates n s
      → Heard s
      → IsQuiet s
      → Printed crates n s.queued s.ctx.global_file.text × IsFlushed s.ctx
  quiet-Printed n s r h q =
      let all = quiet-took n s r h q in
      (
        rw all (subst (λ pc. Written crates n pc s.took s.ctx.global_file.text) q.sleeps r.written),
        subst (λ pc. Idles pc s.ctx) q.sleeps r.idle,
      )

  -- Every entry is written and flushed: from a new logger, after any schedule in which no client
  -- waits for a flush and that ends with the logging thread asleep, its signal not set and no
  -- client about to set it, the global file holds exactly what all queued entries print, cut up,
  -- in order and once each, and all of that file is flushed.
  pub quiet_complete :
      (ctx : LoggerThreadCtx) (es : List Event) (s : System)
      → IsNew ctx
      → All (λ e. ¬ Waits e) es
      → run crates es (start ctx) ≡ some s
      → IsQuiet s
      → Printed crates ctx.config.max_string_len s.queued s.ctx.global_file.text × IsFlushed s.ctx
  quiet_complete ctx es s new a ran q =
      quiet-Printed ctx.config.max_string_len s (run-Recorded crates ctx es s new ran)
        (run-Heard ctx es s new a ran) q
