-- ===== src/LogThread.antt =====
-- src/logger/logger_thread_ctx.rs, `log_thread` and the closure of `init` that runs it, one locked
-- section at a time. Between two sections other threads may run; within one they do not touch what
-- it locks. The build is that of paperlog.Dispatch.
pub mod Frame
pub mod Order
pub mod Progress
pub mod Written
pub mod Filed
pub mod Idle
pub mod Settles
pub mod Health
pub mod Serves
pub mod Handed
pub mod Sinks
pub mod Over
pub mod Entries
pub mod Pieces
pub mod Contexts
use paperlog.Base.{
  ℕ, ◌+◌, ◌≤◌, leb, ◌||◌, Bool, true, false, if◌then◌else◌, is_empty, length, Text, codes, concat,
  List, [], ◌∷◌, Option, none, some,
}
use paperlog.Io.{IoError, IoResult}
use paperlog.LogLevel.{error}
use paperlog.LogData.{LogData, Instant}
use paperlog.LoggerError.{LoggerError, io_error, flush_error, display_error}
use paperlog.VecPool.{Vector, VecPool, VecPoolGuard, with_initial_amount, take_vec, drop_guard}
use paperlog.Chunks.{split_str_into_chunks}
use paperlog.LoggerThreadCtx.{LoggerThreadCtx, Location, flush, wait}
use paperlog.FileLogger
use paperlog.SinkLogger
use paperlog.Dispatch.{log_data_to}

-- What the thread takes from other crates, and the clock and place of its own error report.
pub record Crates : Type 0 where
  pub format_time : Instant → Text  -- chrono's `format("%Y-%m-%d %H:%M:%S")`
  pub chunks : ℕ → Text → Option (List Text)  -- itertools' `chunks`
  pub now : Instant
  pub here : Location

-- Where the thread stands, with the locals that are live there.
pub data Pc : Type 0 where
  top : Pc  -- head of the loop
  taken : (queue : List LogData) → Pc  -- `queue` was taken out of the mutex
  writing : (logs_vec : List LogData) → Pc  -- before `do_log_batch`
  handing : (logs_vec : List LogData) → Pc  -- in the loop over the other backends
  checking : Pc  -- before the first `is_empty`
  flushing : Pc
  deciding : Pc  -- before the second `is_empty`
  waiting : Pc  -- in `log_semaphore_lite.wait()`
  failed : LoggerError → Pc  -- `log_thread` returned an error; before the closure's flush
  reporting : LoggerError → Pc
  stopped : LoggerError → Pc
  panicked : Pc

pub record Thread : Type 0 where
  pub pc : Pc
  pub logged : ℕ
  pub guard : VecPoolGuard LogData  -- at `top`, only its pool is live

abbrev empty_vec : Vector LogData
empty_vec = record { items = []; capacity = 0 }

unfoldable pub start_thread : Thread
start_thread = record {
  pc = top;
  logged = 0;
  guard = record { vec = empty_vec; rest = with_initial_amount 2 1024 };
}

-- The end of the loop's body drops the guard.
unfoldable pub end_round : Thread → Thread
end_round t = record t { pc = top; guard = record { vec = empty_vec; rest = drop_guard t.guard } }

abbrev go : Thread → Pc → Thread
go t pc = record t { pc = pc }

-- What the thread takes at the head of its loop.
abbrev pub takes : Pc → LoggerThreadCtx → List LogData
takes top ctx = ctx.log_queue
takes _ ctx = []

-- What its next step hands to the backends behind the files.
abbrev pub adds : Pc → List LogData
adds (handing (log ∷ rest)) = log ∷ []
adds _ = []

module _ (crates : Crates) where
  -- `mem::replace(&mut *locked, vec.to_vec())`: what is left in the queue is what the pooled vector
  -- holds.
  unfoldable pub take_batch : LoggerThreadCtx → Thread → LoggerThreadCtx × Thread
  take_batch ctx t =
      let guard = take_vec t.guard.rest in
      (
        record ctx { log_queue = guard.vec.items },
        record {
          pc = taken ctx.log_queue;
          logged = t.logged + length ctx.log_queue;
          guard = guard;
        },
      )

  -- A panic ends the thread.
  after_split : Thread → Option (List LogData) → Thread
  after_split t none = go t panicked
  after_split t (some logs_vec) = go t (writing logs_vec)

  split_batch : LoggerThreadCtx → Thread → List LogData → Thread
  split_batch ctx t [] = go t checking
  split_batch ctx t (log ∷ queue) =
      after_split t (split_str_into_chunks crates.chunks (log ∷ queue) ctx.config.max_string_len)

  unfoldable pub after_write :
      Thread → List LogData → LoggerThreadCtx × IoResult → LoggerThreadCtx × Thread
  after_write t logs_vec (ctx, none) = (ctx, go t (handing logs_vec))
  after_write t logs_vec (ctx, some e) = (ctx, go t (failed (io_error e)))

  unfoldable pub after_hand :
      Thread → List LogData → LoggerThreadCtx × Option LoggerError → LoggerThreadCtx × Thread
  after_hand t rest (ctx, none) = (ctx, go t (handing rest))
  after_hand t rest (ctx, some e) = (ctx, go t (failed e))

  after_flush : Thread → LoggerThreadCtx × IoResult → LoggerThreadCtx × Thread
  after_flush t (ctx, none) = (ctx, record t { pc = deciding; logged = 0 })
  after_flush t (ctx, some e) = (ctx, go t (failed (flush_error e)))

  wake : LoggerThreadCtx → Thread → Option Bool → Option (LoggerThreadCtx × Thread)
  wake ctx t none = none
  wake ctx t (some flag) = some (record ctx { log_signal = flag }, end_round t)

  -- The closure's report of the error, straight to the backends.
  unfoldable pub report : LoggerThreadCtx → LoggerError → LoggerThreadCtx
  report ctx e =
      log_data_to crates.format_time ctx error (some (codes "Paper2"))
        (concat (codes "Error occurred in logging thread: " ∷ display_error e ∷ [])) crates.now
        crates.here

  unfoldable pub step_at : LoggerThreadCtx → Thread → Pc → Option (LoggerThreadCtx × Thread)
  unfolding take_batch split_batch after_split after_write after_hand after_flush wake end_round
      report
  step_at ctx t top = some (take_batch ctx t)
  step_at ctx t (taken queue) = some (ctx, split_batch ctx t queue)
  step_at ctx t (writing logs_vec) =
      some (after_write t logs_vec (FileLogger.do_log_batch crates.format_time logs_vec ctx))
  step_at ctx t (handing []) = some (ctx, go t checking)
  step_at ctx t (handing (log ∷ rest)) = some (after_hand t rest (SinkLogger.do_log log ctx))
  step_at ctx t checking =
      some (ctx, go t (if is_empty ctx.log_queue || leb 100 t.logged then flushing else deciding))
  step_at ctx t flushing = some (after_flush t (flush ctx))
  step_at ctx t deciding = some (ctx, if is_empty ctx.log_queue then go t waiting else end_round t)
  step_at ctx t waiting = wake ctx t (wait ctx.log_signal)
  step_at ctx t (failed e) = some ((flush ctx).0, go t (reporting e))
  step_at ctx t (reporting e) = some (report ctx e, go t (stopped e))
  step_at ctx t (stopped e) = none
  step_at ctx t panicked = none

  -- One step of the thread; `none` where it cannot make one.
  unfoldable pub thread_step : LoggerThreadCtx → Thread → Option (LoggerThreadCtx × Thread)
  unfolding step_at
  thread_step ctx t = step_at ctx t t.pc
