-- ===== src/Protocol/Faults.antt =====
-- What `wait_for_flush` does to the protocol. It waits on the semaphore by which the queue wakes
-- the logging thread, not on the one that a flush signals; and it holds a read guard while it waits.
use paperlog.Base.{
  ℕ, suc, ◌<◌, ◌≡◌, refl, ◌∙◌, true, false, List, none, some, arith, All, OnSome-some, inl, inr,
  Option-cases,
}
use paperlog.LoggerThreadCtx.{wait_for_flush}
use paperlog.LogThread.{Crates, waiting}
use paperlog.LogThread.Idle.{thread_step-asleep}
use paperlog.Protocol.{System, Event, request, end_wait, perform, run, needs_write}
use paperlog.Protocol.Schedules.{run-keeps}
use paperlog.Protocol.Quiet.{IsQuiet}
use paperlog.Protocol.Clients.{Pushes, Queues-Pushes}
use paperlog.Protocol.Moves.{
  Move, queues, signalled, stepped, requests, waits, wakes, gives_up, administers, perform-Move,
}

-- `u` is quiet like `s`, and has the same entries queued and the same global file.
pub record StillQuiet (s u : System) : Type 0 where
  pub quiet : IsQuiet u
  pub queue : u.ctx.log_queue ≡ s.ctx.log_queue
  pub file : u.ctx.global_file ≡ s.ctx.global_file

module _ (crates : Crates) where
  Move-StillQuiet :
      {e : Event} {s t u : System}
      → ¬ Pushes e
      → Move crates e t u
      → StillQuiet s t
      → StillQuiet s u
  Move-StillQuiet {e} a (queues logs b free eq) q = absurd (a (Queues-Pushes e logs b))
  Move-StillQuiet a (signalled k p eq) q = absurd (omega (arith, q.quiet.none_coming))
  Move-StillQuiet {t = t} a (stepped ctx thread moved free eq) q =
      let asleep = thread_step-asleep crates t.ctx t.thread q.quiet.sleeps q.quiet.unset in cc
  Move-StillQuiet a (requests w p eq) q = rw eq (record {
    quiet = record {
      sleeps = q.quiet.sleeps;
      unset = q.quiet.unset;
      none_coming = q.quiet.none_coming;
    };
    queue = q.queue;
    file = q.file;
  })
  Move-StillQuiet a (waits w d b p eq) q = rw eq (record {
    quiet = record {
      sleeps = q.quiet.sleeps;
      unset = q.quiet.unset;
      none_coming = q.quiet.none_coming;
    };
    queue = q.queue;
    file = q.file;
  })
  Move-StillQuiet a (wakes w d b p eq) q = let unset = q.quiet.unset in cc
  Move-StillQuiet a (gives_up d p eq) q = rw eq (record {
    quiet = record {
      sleeps = q.quiet.sleeps;
      unset = q.quiet.unset;
      none_coming = q.quiet.none_coming;
    };
    queue = q.queue;
    file = q.file;
  })
  Move-StillQuiet a (administers ctx free quiet out keeps spares eq) q = rw eq (record {
    quiet = record {
      sleeps = q.quiet.sleeps;
      unset = out.signal ∙ q.quiet.unset;
      none_coming = q.quiet.none_coming;
    };
    queue = out.queue ∙ q.queue;
    file = out.file ∙ q.file;
  })

  -- A quiet logger stays quiet until a client queues something: until then no entry that stands
  -- in the queue is written.
  pub run-StillQuiet :
      (es : List Event) (s u : System)
      → IsQuiet s
      → All (λ e. ¬ Pushes e) es
      → run crates es s ≡ some u
      → StillQuiet s u
  run-StillQuiet es s u q a ran =
      run-keeps crates (StillQuiet s) (λ e. ¬ Pushes e) (λ e t u b m k. Move-StillQuiet b m k) es s
        u a (record { quiet = q; queue = refl; file = refl }) ran

  -- All that a deadlock needs: the logging thread waits for the write lock while a client in
  -- `wait_for_flush` holds a read guard and waits for a signal, and nobody else is inside.
  pub record IsDeadlocked (s : System) : Type 0 where
    pub requested : s.requested ≡ true
    pub unset : s.ctx.log_signal ≡ false
    pub none_coming : s.pending ≡ 0
    pub none_timed : s.timed ≡ 0
    pub held : 0 < s.waiters
    pub wants : needs_write s.thread.pc ≡ true

  not-Move : {e : Event} {s t : System} → IsDeadlocked s → ¬ Move crates e s t
  not-Move d (queues logs b free eq) = let asked = d.requested in cc
  not-Move d (signalled k p eq) = omega (arith, d.none_coming)
  not-Move d (stepped ctx thread moved free eq) = omega (arith, (free d.wants).1, d.held)
  not-Move d (requests w free eq) = let asked = d.requested in cc
  not-Move d (waits w k b free eq) = let asked = d.requested in cc
  not-Move d (wakes w k b p eq) = let unset = d.unset in cc
  not-Move d (gives_up k p eq) = omega (arith, d.none_timed)
  not-Move d (administers ctx free quiet out keeps spares eq) = let asked = d.requested in cc

  -- From there nothing can happen any more.
  deadlock-stuck : (s : System) → IsDeadlocked s → (e : Event) → perform crates e s ≡ none
  deadlock-stuck s d e = elim (Option-cases (perform crates e s)) [
    | inl stuck ↦ stuck
    | inr (t, moved) ↦ absurd (
        not-Move d
          (OnSome-some (Move crates e s) (perform crates e s) (perform-Move crates e s) moved))
  ]

  -- A client in `wait_for_flush` while the logging thread is about to ask for the write lock, the
  -- signal is not set, and no client is between push and signal or in a timed wait: the thread
  -- can ask for the lock, and then no event can happen any more, neither a step of the thread nor
  -- a call of any client.
  pub wait_for_flush_deadlocks :
      (s : System)
      → needs_write s.thread.pc ≡ true
      → s.requested ≡ false
      → s.ctx.log_signal ≡ false
      → s.pending ≡ 0
      → s.timed ≡ 0
      → 0 < s.waiters
      → (t : System) × (perform crates request s ≡ some t)
        × ((e : Event) → perform crates e t ≡ none)
  unfolding perform
  wait_for_flush_deadlocks s wants free unset none_coming none_timed held = (
    record s { requested = true },
    simp (wants, free),
    deadlock-stuck (record s { requested = true })
        (record {
          requested = refl;
          unset = unset;
          none_coming = none_coming;
          none_timed = none_timed;
          held = held;
          wants = wants;
        }),
  )

  -- While the logging thread sleeps with its signal set, and no client is about to set it again,
  -- a client in `wait_for_flush` can take that signal: its wait ends, with the queue and the
  -- global file unchanged and the thread still asleep, and they stay so in every schedule in
  -- which no client queues more.
  pub wait_for_flush_steals :
      (s : System) (w : ℕ)
      → s.thread.pc ≡ waiting
      → s.ctx.log_signal ≡ true
      → s.pending ≡ 0
      → s.waiters ≡ suc w
      → (t : System) × (perform crates end_wait s ≡ some t)
        × StillQuiet s t
        × ((es : List Event) (u : System)
            → All (λ e. ¬ Pushes e) es
            → run crates es t ≡ some u
            → StillQuiet s u)
  unfolding perform wait_for_flush
  wait_for_flush_steals s w sleeps set none_coming held = (
    record s { ctx = record s.ctx { log_signal = false }; waiters = w },
    simp (held, set, wait_for_flush),
    record { quiet = after; queue = refl; file = refl },
    λ es u a ran.
        let k =
          run-StillQuiet es (record s { ctx = record s.ctx { log_signal = false }; waiters = w }) u
            after a ran in
        record { quiet = k.quiet; queue = k.queue; file = k.file },
  )
    where
      after : IsQuiet (record s { ctx = record s.ctx { log_signal = false }; waiters = w })
      after = record { sleeps = sleeps; unset = refl; none_coming = none_coming }
