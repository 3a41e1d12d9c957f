-- ===== src/Protocol/Still.antt =====
-- The events of clients (src/ffi.rs) beside the logging thread and its history.
use paperlog.Base.{◌≡◌, refl, ℕ, zero, suc, Option, none, some, OnSome, arith}
use paperlog.LoggerThreadCtx.{LoggerThreadCtx, wait_for_flush, remove_context, add_sink}
use paperlog.LogThread.{Crates}
use paperlog.Protocol.{
  System, Event, push, signals, advance, request, begin_wait, end_wait, begin_timed, end_timed,
  time_out, adds_context, removes_context, adds_sink, perform, exclusive, leave_pending, pass,
  leave_wait, leave_timed, give_up,
}

-- Not a step of the logging thread.
abbrev pub IsClient : Event → Type 0
IsClient advance = ⊥
IsClient _ = Unit

abbrev pub Same : System → System → Type 0
Same s t = (t.thread ≡ s.thread) × (t.took ≡ s.took)

exclusive-Same : (s : System) (ctx : LoggerThreadCtx) → OnSome (Same s) (exclusive s ctx)
unfolding exclusive
exclusive-Same s ctx = ground arith

module _ (crates : Crates) where
  pending-Same : (s : System) (n : ℕ) → OnSome (Same s) (leave_pending crates s n)
  unfolding leave_pending
  pending-Same s zero = tt
  pending-Same s (suc n) = (refl, refl)

  pass-Same :
      (s t : System) (o : Option LoggerThreadCtx) → Same s t → OnSome (Same s) (pass crates t o)
  unfolding pass
  pass-Same s t none same = tt
  pass-Same s t (some ctx) same = same

  waiters-Same : (s : System) (n : ℕ) → OnSome (Same s) (leave_wait crates s n)
  unfolding leave_wait
  waiters-Same s zero = tt
  waiters-Same s (suc n) =
      pass-Same s (record s { waiters = n }) (wait_for_flush s.ctx) (refl, refl)

  timed-Same : (s : System) (n : ℕ) → OnSome (Same s) (leave_timed crates s n)
  unfolding leave_timed
  timed-Same s zero = tt
  timed-Same s (suc n) = pass-Same s (record s { timed = n }) (wait_for_flush s.ctx) (refl, refl)

  give_up-Same : (s : System) (n : ℕ) → OnSome (Same s) (give_up crates s n)
  unfolding give_up
  give_up-Same s zero = tt
  give_up-Same s (suc n) = (refl, refl)

  pub perform-Same : (e : Event) (s : System) → IsClient e → OnSome (Same s) (perform crates e s)
  unfolding perform
  perform-Same (push logs) s c = ground arith
  perform-Same signals s c = pending-Same s s.pending
  perform-Same advance s c = absurd c
  perform-Same request s c = ground arith
  perform-Same begin_wait s c = ground arith
  perform-Same end_wait s c = waiters-Same s s.waiters
  perform-Same begin_timed s c = ground arith
  perform-Same end_timed s c = timed-Same s s.timed
  perform-Same time_out s c = give_up-Same s s.timed
  perform-Same (adds_context fs tag) s c = exclusive-Same s _
  perform-Same (removes_context tag) s c = exclusive-Same s (remove_context s.ctx tag)
  perform-Same (adds_sink sink) s c = exclusive-Same s (add_sink s.ctx sink)
