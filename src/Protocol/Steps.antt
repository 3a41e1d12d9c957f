-- ===== src/Protocol/Steps.antt =====
-- The events of the protocol that need no new call of a client, one by one.
use paperlog.Base.{
  ℕ, zero, suc, ◌≡◌, ◌⊎◌, inl, inr, refl, ap₂, ◌∙◌, true, false, not, ◌&&◌, ◌==◌, Bool-cases,
  Option-cases, some, none, if-both, arith,
}
use paperlog.LoggerThreadCtx.{LoggerThreadCtx, signal_log}
use paperlog.LogThread.{Crates, Thread, waiting, thread_step}
use paperlog.LogThread.Settles.{Settles, steps, rests, thread-Settles}
use paperlog.LogThread.Serves.{thread_step-wakes, thread_step-sleeps}
use paperlog.LogThread.Order.{HasCleanPool}
use paperlog.Protocol.{
  System, Event, signals, advance, request, perform, needs_write, readers, moved, thread_moves,
  leave_pending,
}
use paperlog.Protocol.Moves.{stepped_to}
use paperlog.Protocol.Quiet.{IsQuiet}
use paperlog.Protocol.Service.{InService}
use paperlog.LogThread.Settles.{Rests, asleep, ended, dead}
use paperlog.LogThread.Serves.{IsAlive, Signals}
use paperlog.LogThread.{
  Pc, top, taken, writing, handing, checking, flushing, deciding, failed, reporting, stopped,
  panicked,
}
use paperlog.Protocol.Delivery.{Own}

-- Where the thread stands, it waits, or its step leaves the signal as it is.
pub waits_or_keeps :
    (pc : Pc)
    → (pc ≡ waiting)
      ⊎ ((before after : LoggerThreadCtx)
          → Signals pc before after
          → after.log_signal ≡ before.log_signal)
waits_or_keeps waiting = inl refl
waits_or_keeps top = inr (λ b a h. h)
waits_or_keeps (taken q) = inr (λ b a h. h)
waits_or_keeps (writing l) = inr (λ b a h. h)
waits_or_keeps (handing l) = inr (λ b a h. h)
waits_or_keeps checking = inr (λ b a h. h)
waits_or_keeps flushing = inr (λ b a h. h)
waits_or_keeps deciding = inr (λ b a h. h)
waits_or_keeps (failed e) = inr (λ b a h. h)
waits_or_keeps (reporting e) = inr (λ b a h. h)
waits_or_keeps (stopped e) = inr (λ b a h. h)
waits_or_keeps panicked = inr (λ b a h. h)

pub Rests-asleep : {pc : Pc} → Rests pc → IsAlive pc → pc ≡ waiting
Rests-asleep asleep a = refl
Rests-asleep (ended e) a = absurd a
Rests-asleep dead a = absurd a

abbrev pub signalled_to : System → ℕ → System
signalled_to s n = record s { ctx = record s.ctx { log_signal = true }; pending = n }

module _ (crates : Crates) where
  thread_moves-eq :
      (s : System) (ctx : LoggerThreadCtx) (t : Thread)
      → thread_step crates s.ctx s.thread ≡ some (ctx, t)
      → thread_moves crates s ≡ some (stepped_to s ctx t)
  unfolding thread_moves moved
  thread_moves-eq s ctx t step = rw step refl

  advance-eq :
      (s : System) (ctx : LoggerThreadCtx) (t : Thread)
      → thread_step crates s.ctx s.thread ≡ some (ctx, t)
      → readers s ≡ 0
      → (needs_write s.thread.pc ≡ false) ⊎ (s.requested ≡ true)
      → perform crates advance s ≡ some (stepped_to s ctx t)
  unfolding perform
  advance-eq s ctx t step none_in free = ground (arith, thread_moves-eq s ctx t step)

  -- What each of the three events did.
  pub signals-inv :
      (s t : System)
      → perform crates signals s ≡ some t
      → (n : ℕ) × (s.pending ≡ suc n) × (t ≡ signalled_to s n)
  unfolding perform leave_pending signal_log
  signals-inv s t went = by_pending s.pending refl
    where
      by_pending : (p : ℕ) → s.pending ≡ p → (n : ℕ) × (s.pending ≡ suc n) × (t ≡ signalled_to s n)
      by_pending zero e = absurd (ground (arith, e, went))
      by_pending (suc n) e = (n, e, ground (arith, e, went))

  pub advance-inv :
      (s t : System)
      → perform crates advance s ≡ some t
      → (ctx : LoggerThreadCtx) × (u : Thread) × (thread_step crates s.ctx s.thread ≡ some (ctx, u))
        × (t ≡ stepped_to s ctx u)
  unfolding perform thread_moves moved
  advance-inv s t went =
      elim (Bool-cases (needs_write s.thread.pc && not (s.requested && readers s == 0))) [
        | inl held ↦ absurd (ground (arith, held, went))
        | inr free ↦ elim (Option-cases (thread_step crates s.ctx s.thread)) [
          | inl stuck ↦ absurd (ground (arith, free, stuck, went))
          | inr ((ctx, u), step) ↦ (ctx, u, step, ground (arith, free, step, went))
        ]
      ]

  pub request-inv :
      (s t : System)
      → perform crates request s ≡ some t
      → (s.requested ≡ false) × (t ≡ record s { requested = true })
  unfolding perform
  request-inv s t went = ground (arith, went)

  -- Where none of them can happen, and where one can.
  pub quiet-stuck : (s : System) → IsQuiet s → (e : Event) → Own e → perform crates e s ≡ none
  unfolding perform leave_pending thread_moves moved needs_write
  quiet-stuck s q signals own = rw (q.none_coming) refl
  quiet-stuck s q advance own = rw (thread_step-sleeps crates s.ctx s.thread q.sleeps q.unset) (
      if-both (λ r. r ≡ none) (needs_write s.thread.pc && not (s.requested && readers s == 0)) none
        none refl refl)
  quiet-stuck s q request own = rw (q.sleeps) refl
  quiet-stuck s q _ own = absurd own

  abbrev pub Goes : System → Type 0
  Goes s = (e : Event) × (t : System) × Own e × (perform crates e s ≡ some t)

  thread-Goes :
      (s : System) (ctx : LoggerThreadCtx) (t : Thread)
      → readers s ≡ 0
      → thread_step crates s.ctx s.thread ≡ some (ctx, t)
      → Goes s
  unfolding perform
  thread-Goes s ctx t none_in step = elim (Bool-cases (needs_write s.thread.pc)) [
    | inr reads ↦ (advance, stepped_to s ctx t, tt, advance-eq s ctx t step none_in (inl reads))
    | inl writes ↦ elim (Bool-cases s.requested) [
      | inl asked ↦ (advance, stepped_to s ctx t, tt, advance-eq s ctx t step none_in (inr asked))
      | inr fresh ↦ (request, record s { requested = true }, tt, rw (writes, fresh) refl)
    ]
  ]

  settled-Goes :
      (s : System) {ctx : LoggerThreadCtx} {t : Thread}
      → Settles crates ctx t
      → s.ctx ≡ ctx
      → s.thread ≡ t
      → InService s
      → s.pending ≡ 0
      → IsQuiet s ⊎ Goes s
  settled-Goes s (steps ctx' t' moved k) ec et h p =
      inr
        (thread-Goes s ctx' t' (omega (arith, p, h.alone)) (ap₂ (thread_step crates) ec et ∙ moved))
  settled-Goes s (rests r) ec et h p =
      let sleeps : s.thread.pc ≡ waiting = Rests-asleep (rw et r) h.alive in
      elim (Bool-cases s.ctx.log_signal) [
        | inl set ↦ inr (
            thread-Goes s _ _ (omega (arith, p, h.alone))
              (thread_step-wakes crates s.ctx s.thread sleeps set))
        | inr unset ↦ inl (record { sleeps = sleeps; unset = unset; none_coming = p })
      ]

  pub progress : (s : System) → InService s → HasCleanPool s.thread → IsQuiet s ⊎ Goes s
  unfolding perform leave_pending signal_log
  progress s h clean = by_pending s.pending refl
    where
      by_pending : (p : ℕ) → s.pending ≡ p → IsQuiet s ⊎ Goes s
      by_pending zero e = settled-Goes s (thread-Settles crates s.ctx s.thread clean) refl refl h e
      by_pending (suc n) e = inr (signals, signalled_to s n, tt, rw e refl)
