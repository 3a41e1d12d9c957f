-- ===== src/Backends.antt =====
-- src/logger/logger_thread_ctx.rs and src/logger/mod.rs, over the features of a build: the backends
-- that `do_log` calls, those that the logging thread calls for each entry after the batch, and the
-- panic hook. paperlog.Dispatch is the build with files and sinks only.
pub mod Thread
pub mod Runs
pub mod Calls
pub mod Simulation
pub mod Steps
pub mod Schedules
pub mod Lifts
pub mod Shown
pub mod Tells
pub mod Printed
pub mod Android
pub mod Complete
pub mod Compiled
pub mod Agrees
pub mod Loop
pub mod Panics
pub mod Statements
pub mod Reached
use paperlog.Base.{
  Bool, true, false, not, ◌&&◌, ◌||◌, if◌then◌else◌, Text, codes, concat, List, [], ◌∷◌, ◌++◌, ℕ,
  Option, none, some,
}
use paperlog.Io.{IoResult}
use paperlog.LogLevel.{LogLevel, error}
use paperlog.LogData.{LogData, Instant}
use paperlog.LoggerError.{LoggerError, io_error}
use paperlog.LoggerThreadCtx.{LoggerThreadCtx, Location}
use paperlog.Dispatch.{Payload, panic_message, display_location}
use paperlog.Logcat
use paperlog.Logcat.{Ended, Sent}
use paperlog.FileLogger
use paperlog.SinkLogger
use paperlog.StdoutLogger
use paperlog.TracingLogger
use paperlog.TracingLogger.{Emitted}

-- The target and the features that choose the backends.
pub record Build : Type 0 where
  pub android : Bool  -- target_os = "android"
  pub logcat : Bool
  pub android_api_30 : Bool
  pub file : Bool
  pub stdout : Bool
  pub sinks : Bool
  pub tracing : Bool

-- Is Android's log compiled in?
abbrev pub has_logcat : Build → Bool
has_logcat build = build.android && build.logcat

-- The `compile_error!` of a backend stops the build.
conflicts : Build → Bool
conflicts build = (has_logcat build && build.tracing) || (build.stdout && not build.tracing)

-- The loop of `log_thread` finds the modules of the backends that it names: it calls `stdout_logger` and
-- `tracing_logger` without `super::`, and unlike `do_log` it has no `use super::*`.
loop_resolves : Build → Bool
loop_resolves build = not build.stdout && not build.tracing

-- `__android_log_is_loggable` of android-api-30 is not imported.
logcat_resolves : Build → Bool
logcat_resolves build = not (has_logcat build && build.android_api_30)

-- The build compiles, as far as its features decide that.
unfoldable pub compiles : Build → Bool
unfolding conflicts loop_resolves logcat_resolves
compiles build = not (conflicts build) && loop_resolves build && logcat_resolves build

-- What the backends write to.
pub record Outputs : Type 0 where
  pub ctx : LoggerThreadCtx
  pub android_log : List Ended  -- the calls of Android's log, oldest first
  pub buffer : List ℕ  -- the calling thread's CSTRING_BUFFER
  pub printed : Text  -- standard output
  pub events : List Emitted  -- the tracing crate's

-- A call goes on, returns an error, or panics.
pub data Stepped : Type 0 where
  goes : Outputs → Stepped
  ends : Outputs → LoggerError → Stepped
  panics : Outputs → Stepped

-- `?` and the next statement.
infixl 5 ◌>>=◌
abbrev pub ◌>>=◌ : Stepped → (Outputs → Stepped) → Stepped
goes out >>= rest = rest out
ends out failure >>= rest = ends out failure
panics out >>= rest = panics out

-- A statement under a `cfg`.
abbrev pub under : Bool → (Outputs → Stepped) → Outputs → Stepped
under true statement out = statement out
under false statement out = goes out

after_logcat : Outputs → Ended × List ℕ → Stepped
after_logcat out (Logcat.panicked, buffer) = panics (record out { buffer = buffer })
after_logcat out (ended, buffer) =
    goes (record out { android_log = out.android_log ++ ended ∷ []; buffer = buffer })

after_file : Outputs → LoggerThreadCtx × IoResult → Stepped
after_file out (ctx, none) = goes (record out { ctx = ctx })
after_file out (ctx, some e) = ends (record out { ctx = ctx }) (io_error e)

after_sinks : Outputs → LoggerThreadCtx × Option LoggerError → Stepped
after_sinks out (ctx, none) = goes (record out { ctx = ctx })
after_sinks out (ctx, some e) = ends (record out { ctx = ctx }) e

-- `loggable` is the answer of `__android_log_is_loggable`.
module _ (format_time : Instant → Text) (loggable : Logcat.Priority → List ℕ → Bool)
    (build : Build) where
  pub to_logcat : LogData → Outputs → Stepped
  unfolding after_logcat
  to_logcat log out = after_logcat out (
      if build.android_api_30
      then Logcat.do_log_api_30 loggable log out.buffer
      else Logcat.do_log log out.buffer)

  pub to_file : LogData → Outputs → Stepped
  unfolding after_file
  to_file log out = after_file out (FileLogger.do_log format_time log out.ctx)

  pub to_stdout : LogData → Outputs → Stepped
  to_stdout log out =
      goes (record out { printed = StdoutLogger.do_log format_time log out.printed })

  pub to_sinks : LogData → Outputs → Stepped
  unfolding after_sinks
  to_sinks log out = after_sinks out (SinkLogger.do_log log out.ctx)

  pub to_tracing : LogData → Outputs → Stepped
  to_tracing log out =
      goes (record out { events = TracingLogger.do_log format_time log out.events })

  -- The statements of `do_log` behind Android's log.
  do_log_rest : LogData → Outputs → Stepped
  unfolding to_file to_stdout to_sinks to_tracing
  do_log_rest log out = do
    out2 ← under build.file (to_file log) out
    out3 ← under build.stdout (to_stdout log) out2
    out4 ← under build.sinks (to_sinks log) out3
    under build.tracing (to_tracing log) out4

  -- `do_log`
  unfoldable pub do_log : LogData → Outputs → Stepped
  unfolding to_logcat do_log_rest
  do_log log out = under (has_logcat build) (to_logcat log) out >>= do_log_rest log

  -- What the loop of `log_thread` does with one entry after the batch.
  hand_rest : LogData → Outputs → Stepped
  unfolding to_stdout to_sinks to_tracing
  hand_rest log out = do
    out2 ← under build.stdout (to_stdout log) out
    out3 ← under build.sinks (to_sinks log) out2
    under build.tracing (to_tracing log) out3

  unfoldable pub hand_one : LogData → Outputs → Stepped
  unfolding to_logcat hand_rest
  hand_one log out = under (has_logcat build) (to_logcat log) out >>= hand_rest log

  unfoldable pub hand : List LogData → Outputs → Stepped
  unfolding hand_one
  hand [] out = goes out
  hand (log ∷ logs) out = hand_one log out >>= hand logs

  -- `let _ = do_log(..)`: an error is dropped, a panic is not.
  ignored : Stepped → Stepped
  ignored (ends out e) = goes out
  ignored s = s

  unfoldable pub log_data_to :
      LogLevel → Option Text → Text → Instant → Location → Outputs → Stepped
  unfolding ignored
  log_data_to level tag message now here out = ignored (
      do_log
        (record {
          level = level;
          tag = tag;
          message = message;
          timestamp = now;
          file = here.file;
          line = here.line;
          column = here.column;
          function_name = none;
        })
        out)

  -- `panic_hook`: `captured` and `spans` are what the backtrace and the span trace print.
  unfoldable pub panic_hook :
      (backtrace spantrace : Bool)
      → Payload
      → Location
      → (captured spans : Text) → Instant
      → Location
      → Outputs
      → Stepped
  panic_hook backtrace spantrace payload location captured spans now here out = do
    out1 ←
        log_data_to error (some (codes "panic"))
          (concat (
            codes "panicked at '"
            ∷ panic_message payload
            ∷ codes "', "
            ∷ display_location location
            ∷ []))
          now here out
    out2 ← under backtrace (log_data_to error (some (codes "panic")) captured now here) out1
    under (build.tracing && spantrace) (log_data_to error (some (codes "panic")) spans now here)
        out2
