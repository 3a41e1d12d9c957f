-- ===== src/Protocol.antt =====
-- The logging thread among its clients, as interleavings of atomic steps: the calls of
-- src/logger/logger_thread_ctx.rs that clients make through `logger.read()` and `logger.write()`
-- (src/ffi.rs), the RwLock around the state, and the two semaphores. parking_lot's RwLock is
-- task-fair: once a writer waits, new readers block. `queue_log` and `wait_for_flush` hold a read
-- guard for their whole length; the writes of the logging thread need that there is none.
pub mod Schedules
pub mod Contexts
pub mod Clients
pub mod Moves
pub mod Order
pub mod Record
pub mod Quiet
pub mod Faults
pub mod Service
pub mod Delivery
pub mod Steps
pub mod Always
pub mod Filing
pub mod Handing
pub mod Ended
pub mod Still
pub mod Inited
pub mod Bounded
pub mod Entries
pub mod Complete
use paperlog.Base.{
  ℕ, zero, suc, ◌+◌, ◌==◌, Bool, true, false, not, ◌&&◌, ◌||◌, if◌then◌else◌, Text, List, [], ◌∷◌,
  ◌++◌, Option, none, some,
}
use paperlog.LogData.{LogData}
use paperlog.LoggerThreadCtx.{
  LoggerThreadCtx, Sink, FileSystem, Result, ok, err, push_logs, signal_log, wait_for_flush,
  add_context, remove_context, add_sink,
}
use paperlog.LogThread.{
  Crates, Pc, top, taken, writing, handing, checking, flushing, deciding, waiting, failed,
  reporting, stopped, panicked, Thread, start_thread, takes, thread_step,
}

pub record System : Type 0 where
  pub ctx : LoggerThreadCtx
  pub thread : Thread
  pub requested : Bool  -- the logging thread waits for the write lock
  pub pending : ℕ  -- clients in `queue_log`, between the push and the signal
  pub waiters : ℕ  -- clients in `wait_for_flush`
  pub timed : ℕ  -- clients in `wait_for_flush_timeout`
  -- Two histories, which no step reads: what was queued, and what the thread took.
  pub queued : List LogData
  pub took : List LogData

pub data Event : Type 0 where
  push : List LogData → Event  -- queue_log, queue_logs, backtrace: up to the signal
  signals : Event  -- the signal of such a call, and its end
  advance : Event  -- a step of the logging thread
  request : Event  -- the logging thread asks for the write lock
  begin_wait : Event  -- a call of wait_for_flush
  end_wait : Event  -- its wait ends, by the flag
  begin_timed : Event  -- a call of wait_for_flush_timeout
  end_timed : Event  -- its wait ends by the flag
  time_out : Event  -- its wait ends by its time
  adds_context : FileSystem → Text → Event
  removes_context : Text → Event
  adds_sink : Sink → Event

-- Where the next section of the thread takes the write lock.
unfoldable pub needs_write : Pc → Bool
needs_write (writing logs) = true
needs_write flushing = true
needs_write (failed e) = true
needs_write (reporting e) = true
needs_write _ = false

abbrev pub readers : System → ℕ
readers s = s.pending + s.waiters + s.timed

abbrev after_context : LoggerThreadCtx → Result LoggerThreadCtx → LoggerThreadCtx
after_context ctx (ok ctx') = ctx'
after_context ctx (err e) = ctx

-- A client's call under the write lock.
exclusive : System → LoggerThreadCtx → Option System
exclusive s ctx' =
    if s.requested || not (readers s == 0) then none else some (record s { ctx = ctx' })

module _ (crates : Crates) where
  unfoldable pub moved : System → Option (LoggerThreadCtx × Thread) → Option System
  moved s none = none
  moved s (some (ctx', t')) = some (record s {
    ctx = ctx';
    thread = t';
    requested = false;
    took = s.took ++ takes s.thread.pc s.ctx;
  })

  unfoldable pub thread_moves : System → Option System
  unfolding moved
  thread_moves s = moved s (thread_step crates s.ctx s.thread)

  leave_pending : System → ℕ → Option System
  leave_pending s zero = none
  leave_pending s (suc n) = some (record s { ctx = signal_log s.ctx; pending = n })

  pass : System → Option LoggerThreadCtx → Option System
  pass s none = none
  pass s (some ctx') = some (record s { ctx = ctx' })

  leave_wait : System → ℕ → Option System
  unfolding pass
  leave_wait s zero = none
  leave_wait s (suc n) = pass (record s { waiters = n }) (wait_for_flush s.ctx)

  leave_timed : System → ℕ → Option System
  unfolding pass
  leave_timed s zero = none
  leave_timed s (suc n) = pass (record s { timed = n }) (wait_for_flush s.ctx)

  give_up : System → ℕ → Option System
  give_up s zero = none
  give_up s (suc n) = some (record s { timed = n })

  -- One event; `none` where it cannot happen.
  unfoldable pub perform : Event → System → Option System
  unfolding exclusive thread_moves leave_pending leave_wait leave_timed give_up needs_write
  perform (push logs) s =
      if s.requested
      then none
      else some (record s {
        ctx = push_logs s.ctx logs;
        pending = suc s.pending;
        queued = s.queued ++ logs;
      })
  perform signals s = leave_pending s s.pending
  perform advance s =
      if needs_write s.thread.pc && not (s.requested && readers s == 0)
      then none
      else thread_moves s
  perform request s =
      if needs_write s.thread.pc && not s.requested
      then some (record s { requested = true })
      else none
  perform begin_wait s = if s.requested then none else some (record s { waiters = suc s.waiters })
  perform end_wait s = leave_wait s s.waiters
  perform begin_timed s = if s.requested then none else some (record s { timed = suc s.timed })
  perform end_timed s = leave_timed s s.timed
  perform time_out s = give_up s s.timed
  perform (adds_context fs tag) s = exclusive s (after_context s.ctx (add_context fs s.ctx tag))
  perform (removes_context tag) s = exclusive s (remove_context s.ctx tag)
  perform (adds_sink sink) s = exclusive s (add_sink s.ctx sink)

  -- A schedule; `none` if one of its events cannot happen in its turn.
  unfoldable pub run : List Event → System → Option System
  run [] s = some s
  run (e ∷ es) s = elim (perform e s) [ none ↦ none | some t ↦ run es t ]

-- The state when `init` returns.
unfoldable pub start : LoggerThreadCtx → System
start ctx = record {
  ctx = ctx;
  thread = start_thread;
  requested = false;
  pending = 0;
  waiters = 0;
  timed = 0;
  queued = [];
  took = [];
}
