-- ===== src/Backends/Statements.antt =====
-- What the statements of `do_log` and of the thread's loop do, one by one.
-- No build with stdout or tracing compiles (`compiles` of Backends): for these the source is read as
-- if the calls of `log_thread` found their modules.
use paperlog.Base.{
  ℕ, ◌≡◌, refl, ap, Bool, true, false, if◌then◌else◌, Text, newline, List, [], ◌∷◌, ◌++◌, map, none,
  All,
}
use paperlog.TextMap.{get}
use paperlog.LogData.{LogData, Instant, format, full_line}
use paperlog.LoggerThreadCtx.{LoggerThreadCtx, Sink}
use paperlog.Logcat
use paperlog.FileLogger
use paperlog.FileLogger.Round.{AllSound, context_step}
use paperlog.SinkLogger
use paperlog.SinkLogger.{called}
use paperlog.StdoutLogger
use paperlog.TracingLogger
use paperlog.Dispatch.Laws.{file_log-Round}
use paperlog.Backends.{
  Build, Outputs, goes, under, after_file, after_sinks, to_file, to_stdout, to_sinks, to_tracing,
}

module _ (format_time : Instant → Text) (loggable : Logcat.Priority → List ℕ → Bool) where
  pub file_step :
      (on : Bool) (build : Build) (log : LogData) (out : Outputs)
      → AllSound out.ctx
      → (ctx : LoggerThreadCtx) × (under on (to_file format_time loggable build log) out
          ≡ goes (record out { ctx = ctx }))
        × (ctx.global_file.text ≡ (
            if on
            then out.ctx.global_file.text ++ full_line format_time log
            else out.ctx.global_file.text))
        × ((k : Text)
            → get k ctx.context_map ≡ (
                if on
                then context_step format_time k log (get k out.ctx.context_map)
                else get k out.ctx.context_map))
        × (ctx.sinks ≡ out.ctx.sinks)
  unfolding to_file after_file
  file_step false build log out sound = (out.ctx, refl, refl, λ k. refl, refl)
  file_step true build log out sound =
      let r = file_log-Round format_time log out.ctx sound in
      (
        (FileLogger.do_log format_time log out.ctx).0,
        ap (λ e. after_file out ((FileLogger.do_log format_time log out.ctx).0, e)) r.fine,
        ap (λ f. f.text) r.global,
        r.contexts,
        ap (λ ctx. ctx.sinks) r.rest,
      )

  pub stdout_step :
      (on : Bool) (build : Build) (log : LogData) (out : Outputs)
      → under on (to_stdout format_time loggable build log) out
        ≡ goes (record out {
          printed =
              if on then out.printed ++ format format_time log ++ newline ∷ [] else out.printed;
        })
  unfolding to_stdout StdoutLogger.do_log
  stdout_step false build log out = refl
  stdout_step true build log out = refl

  call_sinks-All :
      (log : LogData) (sinks : List Sink)
      → All (λ sink. sink.reply sink.received log ≡ none) sinks
      → SinkLogger.call_sinks log sinks ≡ (map (called log) sinks, none)
  unfolding SinkLogger.call_sinks
  call_sinks-All log [] all = refl
  call_sinks-All log (sink ∷ sinks) all =
      let rest = call_sinks-All log sinks all.1 in
      rw (all.0, SinkLogger.call_sinks) (ap (λ r. (called log sink ∷ r.0, r.1)) rest)

  pub sinks_step :
      (on : Bool) (build : Build) (log : LogData) (out : Outputs)
      → All (λ sink. sink.reply sink.received log ≡ none) out.ctx.sinks
      → under on (to_sinks format_time loggable build log) out
        ≡ goes (record out {
          ctx = record out.ctx {
            sinks = if on then map (called log) out.ctx.sinks else out.ctx.sinks;
          };
        })
  unfolding to_sinks after_sinks SinkLogger.do_log
  sinks_step false build log out all = refl
  sinks_step true build log out all = rw (call_sinks-All log out.ctx.sinks all) refl

  pub tracing_step :
      (on : Bool) (build : Build) (log : LogData) (out : Outputs)
      → under on (to_tracing format_time loggable build log) out
        ≡ goes (record out {
          events = if on then TracingLogger.do_log format_time log out.events else out.events;
        })
  unfolding to_tracing
  tracing_step false build log out = refl
  tracing_step true build log out = refl
