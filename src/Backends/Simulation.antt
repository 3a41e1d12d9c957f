-- ===== src/Backends/Simulation.antt =====
-- A build with files and sinks beside paperlog.Dispatch and paperlog.SinkLogger: what its calls do to
-- the shared state.
use paperlog.Base.{
  ◌≡◌, codes, ◌∙◌, refl, ap, Bool, true, if◌then◌else◌, Text, List, ℕ, Option, none, some, arith,
}
use paperlog.LogLevel.{error}
use paperlog.LogData.{LogData, Instant}
use paperlog.Io.{IoResult}
use paperlog.LoggerError.{LoggerError, io_error}
use paperlog.LoggerThreadCtx.{LoggerThreadCtx, Location}
use paperlog.Logcat
use paperlog.Logcat.{Ended}
use paperlog.FileLogger
use paperlog.SinkLogger
use paperlog.StdoutLogger
use paperlog.Dispatch
use paperlog.Dispatch.Laws.{entry}
use paperlog.Backends.{
  Build, Outputs, Stepped, goes, ends, panics, under, ◌>>=◌, after_file, after_sinks, to_file,
  to_sinks, to_tracing, do_log, do_log_rest, hand_one, hand_rest, ignored, log_data_to,
}
use paperlog.Backends.Calls.{Suits, after_call, logcat_step}
use paperlog.Backends.Statements.{stdout_step, tracing_step}

-- What a call did to the shared state, if it did not panic.
unfoldable pub outcome : Stepped → Option (LoggerThreadCtx × Option LoggerError)
outcome (goes out) = some (out.ctx, none)
outcome (ends out e) = some (out.ctx, some e)
outcome (panics out) = none

after_sinks-outcome :
    (out : Outputs) (r : LoggerThreadCtx × Option LoggerError) (rest : Outputs → Stepped)
    → ((o : Outputs) → outcome (rest o) ≡ some (o.ctx, none))
    → outcome (after_sinks out r >>= rest) ≡ some r
unfolding after_sinks outcome
after_sinks-outcome out (ctx, none) rest h = h (record out { ctx = ctx })
after_sinks-outcome out (ctx, some e) rest h = refl

abbrev pub FilesAndSinks : Build → Type 0
FilesAndSinks build = (build.file ≡ true) × (build.sinks ≡ true)

-- The entry of the closure's report.
Suits-report :
    (build : Build) (message : Text) (now : Instant) (here : Location)
    → Suits build (entry error (some (codes "Paper2")) message now here)
unfolding Logcat.tag_bytes Logcat.utf8
Suits-report build message now here = λ on. omega arith

module _ (format_time : Instant → Text) (loggable : Logcat.Priority → List ℕ → Bool)
    (build : Build) where
  -- A call goes on, with this shared state.
  abbrev pub Goes : Stepped → LoggerThreadCtx → Type 0
  Goes s ctx = (out : Outputs) × (s ≡ goes out) × (out.ctx ≡ ctx)

  ignored-Goes :
      (s : Stepped) (r : LoggerThreadCtx × Option LoggerError)
      → outcome s ≡ some r
      → Goes (ignored format_time loggable build s) r.0
  unfolding ignored outcome
  ignored-Goes (goes out) r h = (out, refl, ground arith)
  ignored-Goes (ends out e) r h = (out, refl, ground arith)
  ignored-Goes (panics out) r h = ground arith

  tracing-outcome :
      (log : LogData) (out : Outputs)
      → outcome (under build.tracing (to_tracing format_time loggable build log) out)
        ≡ some (out.ctx, none)
  unfolding outcome
  tracing-outcome log out =
      ap outcome (tracing_step format_time loggable build.tracing build log out)

  hand_rest-outcome :
      (log : LogData) (out : Outputs)
      → build.sinks ≡ true
      → outcome (hand_rest format_time loggable build log out)
        ≡ some (SinkLogger.do_log log out.ctx)
  unfolding hand_rest to_sinks StdoutLogger.do_log
  hand_rest-outcome log out sinks =
      rw (stdout_step format_time loggable build.stdout build log out, sinks)
        (after_sinks-outcome
          (record out {
            printed =
                if build.stdout
                then StdoutLogger.do_log format_time log out.printed
                else out.printed;
          })
          (SinkLogger.do_log log out.ctx)
          (under build.tracing (to_tracing format_time loggable build log)) (tracing-outcome log))

  pub hand_one-outcome :
      (log : LogData) (out : Outputs)
      → FilesAndSinks build
      → Suits build log
      → outcome (hand_one format_time loggable build log out) ≡ some (SinkLogger.do_log log out.ctx)
  unfolding hand_one
  hand_one-outcome log out (file, sinks) suits =
      ap (λ s. outcome (s >>= hand_rest format_time loggable build log))
        (logcat_step format_time loggable build log out suits)
      ∙ hand_rest-outcome log (after_call format_time loggable build log out) sinks

  after_file-outcome :
      (log : LogData) (out : Outputs) (r : LoggerThreadCtx × IoResult)
      → build.sinks ≡ true
      → outcome (after_file out r >>= hand_rest format_time loggable build log)
        ≡ some (elim r.1 [ some e ↦ (r.0, some (io_error e)) | none ↦ SinkLogger.do_log log r.0 ])
  unfolding after_file outcome
  after_file-outcome log out (ctx, none) sinks =
      hand_rest-outcome log (record out { ctx = ctx }) sinks
  after_file-outcome log out (ctx, some e) sinks = refl

  do_log_rest-outcome :
      (log : LogData) (out : Outputs)
      → FilesAndSinks build
      → outcome (do_log_rest format_time loggable build log out)
        ≡ some (Dispatch.do_log format_time log out.ctx)
  unfolding do_log_rest hand_rest to_file Dispatch.do_log
  do_log_rest-outcome log out (file, sinks) =
      rw (file) (after_file-outcome log out (FileLogger.do_log format_time log out.ctx) sinks)

  do_log-outcome :
      (log : LogData) (out : Outputs)
      → FilesAndSinks build
      → Suits build log
      → outcome (do_log format_time loggable build log out)
        ≡ some (Dispatch.do_log format_time log out.ctx)
  unfolding do_log
  do_log-outcome log out plain suits =
      ap (λ s. outcome (s >>= do_log_rest format_time loggable build log))
        (logcat_step format_time loggable build log out suits)
      ∙ do_log_rest-outcome log (after_call format_time loggable build log out) plain

  pub report-outcome :
      (message : Text) (now : Instant) (here : Location) (out : Outputs)
      → FilesAndSinks build
      → Goes
          (log_data_to format_time loggable build error
            (some (codes "Paper2"))
            message
            now
            here
            out)
          (Dispatch.log_data_to format_time out.ctx error (some (codes "Paper2")) message now here)
  unfolding log_data_to Dispatch.log_data_to
  report-outcome message now here out plain =
      let said = entry error (some (codes "Paper2")) message now here in
      ignored-Goes (do_log format_time loggable build said out)
        (Dispatch.do_log format_time said out.ctx)
        (do_log-outcome said out plain (Suits-report build message now here))
