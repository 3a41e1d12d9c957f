-- ===== src/Protocol/Moves.antt =====
-- The events of the protocol by what they do, as a step relation.
use paperlog.Base.{
  ℕ, zero, suc, ◌+◌, ◌≡◌, refl, ◌==◌, ◌&&◌, ◌||◌, not, Bool, true, false, List, [], ◌∷◌, ◌++◌,
  Option, none, some, OnSome, OnSome-then, OnSome-else, arith, ap, sym, ◌∙◌, append-nil,
  append_assoc,
}
use paperlog.LogData.{LogData}
use paperlog.LoggerThreadCtx.{
  LoggerThreadCtx, push_log, push_logs, signal_log, wait_for_flush, remove_context, add_sink,
}
use paperlog.LogThread.Health.{Healthy}
use paperlog.LogThread.{Crates, Thread, thread_step, takes}
use paperlog.Protocol.Clients.{
  Fair, Queues, Waits, Outside, add_context-Outside, add_context-Healthy, remove_context-Outside,
  remove_context-Healthy, add_sink-Outside, add_sink-Healthy,
}
use paperlog.Protocol.Contexts.{Spared, add_context-Spared, add_sink-Spared, remove_context-Spared}
use paperlog.Protocol.{
  System, Event, push, signals, advance, request, begin_wait, end_wait, begin_timed, end_timed,
  time_out, adds_context, removes_context, adds_sink, perform, moved, exclusive, thread_moves,
  leave_pending, leave_wait, leave_timed, give_up, pass, needs_write, readers,
}

abbrev pub stepped_to : System → LoggerThreadCtx → Thread → System
stepped_to s ctx t = record s {
  ctx = ctx;
  thread = t;
  requested = false;
  took = s.took ++ takes s.thread.pc s.ctx;
}

pub data Move (crates : Crates) (e : Event) (s t : System) : Type 0 where
  queues :
      (logs : List LogData)
      → Queues e logs
      → s.requested ≡ false
      → t ≡ record s {
        ctx = record s.ctx { log_queue = s.ctx.log_queue ++ logs };
        pending = suc s.pending;
        queued = s.queued ++ logs;
      }
      → Move crates e s t
  signalled :
      (n : ℕ)
      → s.pending ≡ suc n
      → t ≡ record s { ctx = record s.ctx { log_signal = true }; pending = n }
      → Move crates e s t
  stepped :
      (ctx : LoggerThreadCtx) (thread : Thread)
      → thread_step crates s.ctx s.thread ≡ some (ctx, thread)
      → (needs_write s.thread.pc ≡ true → (s.requested ≡ true) × (readers s ≡ 0))
      → t ≡ stepped_to s ctx thread
      → Move crates e s t
  requests :
      needs_write s.thread.pc ≡ true
      → s.requested ≡ false
      → t ≡ record s { requested = true }
      → Move crates e s t
  waits :
      (w d : ℕ)
      → Waits e
      → s.requested ≡ false
      → t ≡ record s { waiters = w; timed = d }
      → Move crates e s t
  wakes :
      (w d : ℕ)
      → w + d + 1 ≡ s.waiters + s.timed
      → s.ctx.log_signal ≡ true
      → t ≡ record s { ctx = record s.ctx { log_signal = false }; waiters = w; timed = d }
      → Move crates e s t
  gives_up : (d : ℕ) → s.timed ≡ suc d → t ≡ record s { timed = d } → Move crates e s t
  administers :
      (ctx : LoggerThreadCtx)
      → s.requested ≡ false
      → readers s ≡ 0
      → Outside s.ctx ctx
      → (Fair e → Healthy s.ctx → Healthy ctx)
      → Spared e s.ctx ctx
      → t ≡ record s { ctx = ctx }
      → Move crates e s t

pub push_logs-eq :
    (logs : List LogData) (ctx : LoggerThreadCtx)
    → push_logs ctx logs ≡ record ctx { log_queue = ctx.log_queue ++ logs }
unfolding push_logs push_log
push_logs-eq [] ctx = λ i. record ctx { log_queue = sym (append-nil ctx.log_queue) i }
push_logs-eq (log ∷ logs) ctx =
    push_logs-eq logs (push_log ctx log)
    ∙ ap (λ (q : List LogData). record ctx { log_queue = q })
        (append_assoc ctx.log_queue (log ∷ []) logs)

module _ (crates : Crates) where
  exclusive-Move :
      (e : Event) (s : System) (ctx : LoggerThreadCtx)
      → Outside s.ctx ctx
      → (Fair e → Healthy s.ctx → Healthy ctx)
      → Spared e s.ctx ctx
      → OnSome (Move crates e s) (exclusive s ctx)
  unfolding exclusive
  exclusive-Move e s ctx o k spared =
      OnSome-else (Move crates e s) (s.requested || not (readers s == 0))
        (some (record s { ctx = ctx }))
        (λ free. administers ctx (ground arith) (ground arith) o k spared refl)

  pending-Move :
      (e : Event) (s : System) (n : ℕ)
      → s.pending ≡ n
      → OnSome (Move crates e s) (leave_pending crates s n)
  unfolding leave_pending signal_log
  pending-Move e s zero h = tt
  pending-Move e s (suc n) h = signalled n h refl

  waiters-Move :
      (e : Event) (s : System) (n : ℕ)
      → s.waiters ≡ n
      → OnSome (Move crates e s) (leave_wait crates s n)
  unfolding leave_wait wait_for_flush
  waiters-Move e s zero h = tt
  waiters-Move e s (suc n) h = by_flag s.ctx.log_signal refl
    where
      by_flag :
          (flag : Bool)
          → s.ctx.log_signal ≡ flag
          → OnSome (Move crates e s) (pass crates (record s { waiters = n }) (wait_for_flush s.ctx))
      by_flag true set = simp (set, wait_for_flush) (wakes n s.timed (omega arith) set refl)
      by_flag false unset = simp (unset, wait_for_flush) tt

  timed-Move :
      (e : Event) (s : System) (n : ℕ)
      → s.timed ≡ n
      → OnSome (Move crates e s) (leave_timed crates s n)
  unfolding leave_timed wait_for_flush
  timed-Move e s zero h = tt
  timed-Move e s (suc n) h = by_flag s.ctx.log_signal refl
    where
      by_flag :
          (flag : Bool)
          → s.ctx.log_signal ≡ flag
          → OnSome (Move crates e s) (pass crates (record s { timed = n }) (wait_for_flush s.ctx))
      by_flag true set = simp (set, wait_for_flush) (wakes s.waiters n (omega arith) set refl)
      by_flag false unset = simp (unset, wait_for_flush) tt

  give_up-Move :
      (e : Event) (s : System) (n : ℕ) → s.timed ≡ n → OnSome (Move crates e s) (give_up crates s n)
  unfolding give_up
  give_up-Move e s zero h = tt
  give_up-Move e s (suc n) h = gives_up n h refl

  thread-Move :
      (e : Event) (s : System)
      → (needs_write s.thread.pc ≡ true → (s.requested ≡ true) × (readers s ≡ 0))
      → OnSome (Move crates e s) (thread_moves crates s)
  unfolding thread_moves moved
  thread-Move e s h = thread_steps (thread_step crates s.ctx s.thread) refl
    where
      thread_steps :
          (o : Option (LoggerThreadCtx × Thread))
          → thread_step crates s.ctx s.thread ≡ o
          → OnSome (Move crates e s) (moved crates s o)
      thread_steps none eq = tt
      thread_steps (some (ctx, thread)) eq = stepped ctx thread eq h refl

  push_eq :
      (logs : List LogData) (s : System)
      → record s { ctx = push_logs s.ctx logs; pending = suc s.pending; queued = s.queued ++ logs }
        ≡ record s {
          ctx = record s.ctx { log_queue = s.ctx.log_queue ++ logs };
          pending = suc s.pending;
          queued = s.queued ++ logs;
        }
  push_eq logs s = λ i. record s {
    ctx = push_logs-eq logs s.ctx i;
    pending = suc s.pending;
    queued = s.queued ++ logs;
  }

  pub perform-Move : (e : Event) (s : System) → OnSome (Move crates e s) (perform crates e s)
  unfolding perform
  perform-Move (push logs) s =
      OnSome-else (Move crates (push logs) s) s.requested _
        (λ free. queues logs refl free (push_eq logs s))
  perform-Move signals s = pending-Move signals s s.pending refl
  perform-Move advance s =
      OnSome-else (Move crates advance s)
        (needs_write s.thread.pc && not (s.requested && readers s == 0)) (thread_moves crates s)
        (λ free. thread-Move advance s (λ w. ground arith))
  perform-Move request s =
      OnSome-then (Move crates request s) (needs_write s.thread.pc && not s.requested) _
        (λ asks. requests (ground arith) (ground arith) refl)
  perform-Move begin_wait s =
      OnSome-else (Move crates begin_wait s) s.requested _
        (λ free. waits (suc s.waiters) s.timed tt free refl)
  perform-Move end_wait s = waiters-Move end_wait s s.waiters refl
  perform-Move begin_timed s =
      OnSome-else (Move crates begin_timed s) s.requested _
        (λ free. waits s.waiters (suc s.timed) tt free refl)
  perform-Move end_timed s = timed-Move end_timed s s.timed refl
  perform-Move time_out s = give_up-Move time_out s s.timed refl
  perform-Move (adds_context fs tag) s =
      exclusive-Move (adds_context fs tag) s _ (add_context-Outside fs s.ctx tag)
        (add_context-Healthy fs s.ctx tag) (add_context-Spared fs s.ctx tag)
  perform-Move (removes_context tag) s =
      exclusive-Move (removes_context tag) s (remove_context s.ctx tag)
        (remove_context-Outside s.ctx tag) (λ fair. remove_context-Healthy s.ctx tag)
        (remove_context-Spared s.ctx tag)
  perform-Move (adds_sink sink) s =
      exclusive-Move (adds_sink sink) s (add_sink s.ctx sink) (add_sink-Outside s.ctx sink)
        (add_sink-Healthy s.ctx sink) (add_sink-Spared s.ctx sink)
