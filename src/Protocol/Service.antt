-- ===== src/Protocol/Service.antt =====
-- A healthy logger under fair events: the thread is at work, and nobody waits for a flush.
use paperlog.Base.{◌+◌, ◌≡◌, refl, true, List, ◌++◌, some, All, OnSome-some, arith}
use paperlog.Chunks.{IsChunks}
use paperlog.LoggerThreadCtx.{LoggerThreadCtx}
use paperlog.LogThread.{Crates, start_thread, thread_step}
use paperlog.LogThread.Health.{Healthy, Healthy-queue}
use paperlog.LogThread.Serves.{IsAlive, Serves, thread_step-Serves}
use paperlog.Protocol.{System, Event, run, start}
use paperlog.Protocol.Clients.{Fair, Waits}
use paperlog.Protocol.Schedules.{run-keeps}
use paperlog.Protocol.Moves.{
  Move, queues, signalled, stepped, requests, waits, wakes, gives_up, administers,
}

pub record InService (s : System) : Type 0 where
  pub healthy : Healthy s.ctx
  pub alive : IsAlive s.thread.pc
  pub alone : s.waiters + s.timed ≡ 0

pub Fair-Waits : (e : Event) → Fair e → ¬ Waits e
Fair-Waits e f w = ground (arith)

module _ (crates : Crates) (laws : IsChunks crates.chunks) where
  pub Move-InService :
      {e : Event} {s t : System} → Fair e → Move crates e s t → InService s → InService t
  Move-InService {s = s} f (queues logs b free eq) h = rw eq (record {
    healthy = Healthy-queue (s.ctx.log_queue ++ logs) s.ctx.log_signal h.healthy;
    alive = h.alive;
    alone = h.alone;
  })
  Move-InService {s = s} f (signalled k p eq) h = rw eq (record {
    healthy = Healthy-queue s.ctx.log_queue true h.healthy;
    alive = h.alive;
    alone = h.alone;
  })
  Move-InService {s = s} f (stepped ctx thread moved free eq) h =
      let step =
        OnSome-some (Serves s.ctx s.thread.pc) (thread_step crates s.ctx s.thread)
          (thread_step-Serves crates laws s.ctx s.thread h.healthy h.alive) moved in
      rw eq (record { healthy = step.healthy; alive = step.alive; alone = h.alone })
  Move-InService f (requests w p eq) h =
      rw eq (record { healthy = h.healthy; alive = h.alive; alone = h.alone })
  Move-InService {e = e} f (waits w d b p eq) h = absurd (Fair-Waits e f b)
  Move-InService f (wakes w d b p eq) h = absurd (omega (arith, h.alone))
  Move-InService f (gives_up d p eq) h = absurd (omega (arith, h.alone))
  Move-InService f (administers ctx free quiet out keeps spares eq) h =
      rw eq (record { healthy = keeps f h.healthy; alive = h.alive; alone = h.alone })

  pub run-InService :
      (es : List Event) (s t : System)
      → All Fair es
      → run crates es s ≡ some t
      → InService s
      → InService t
  run-InService es s t a ran h =
      run-keeps crates InService Fair (λ e s t f m. Move-InService f m) es s t a h ran

pub start-InService : (ctx : LoggerThreadCtx) → Healthy ctx → InService (start ctx)
unfolding start start_thread
start-InService ctx h = record { healthy = h; alive = tt; alone = refl }
