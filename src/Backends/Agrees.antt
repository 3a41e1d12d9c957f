-- ===== src/Backends/Agrees.antt =====
-- A build with files and sinks, beside paperlog.Dispatch.
use paperlog.Base.{
  fun_ext, ℕ, ◌≡◌, refl, ap, ◌∙◌, Bool, true, false, if◌then◌else◌, Text, List, Option, codes, ◌&&◌,
  none, some, arith,
}
use paperlog.LogData.{LogData, Instant}
use paperlog.LoggerError.{LoggerError}
use paperlog.LogLevel.{LogLevel, error}
use paperlog.LoggerThreadCtx.{LoggerThreadCtx, Location}
use paperlog.Logcat
use paperlog.Dispatch
use paperlog.Dispatch.{Payload}
use paperlog.Dispatch.Laws.{file_log-Round, panic_entry}
use paperlog.Backends.{
  Build, has_logcat, compiles, Outputs, Stepped, goes, ends, under, ◌>>=◌, ignored, log_data_to,
  panic_hook, after_file, after_sinks, to_logcat, to_file, to_sinks, do_log, do_log_rest,
}

-- The outcome of a call that writes to the state only.
abbrev pub of_result : Outputs → LoggerThreadCtx × Option LoggerError → Stepped
of_result out (ctx, none) = goes (record out { ctx = ctx })
of_result out (ctx, some e) = ends (record out { ctx = ctx }) e

-- The build that has files and sinks, and none of the other backends.
abbrev pub PlainBuild : Build → Type 0
PlainBuild build =
    (has_logcat build ≡ false)
    × (build.file ≡ true)
    × (build.stdout ≡ false)
    × (build.sinks ≡ true)
    × (build.tracing ≡ false)

module _ (format_time : Instant → Text) (loggable : Logcat.Priority → List ℕ → Bool) where
  do_log_rest-Dispatch :
      (build : Build) (log : LogData) (out : Outputs)
      → build.file ≡ true
      → build.stdout ≡ false
      → build.sinks ≡ true
      → build.tracing ≡ false
      → do_log_rest format_time loggable build log out
        ≡ of_result out (Dispatch.do_log format_time log out.ctx)
  unfolding do_log_rest to_file to_sinks after_file after_sinks Dispatch.do_log
  do_log_rest-Dispatch build log out file stdout sinks tracing = ground arith

  -- In a build that compiles, has files and sinks, and not tracing: `do_log` is Android's log, if the
  -- build has it, and behind it the synchronous path of the build for other targets.
  do_log-Android :
      (build : Build) (log : LogData) (out : Outputs)
      → compiles build ≡ true
      → build.file ≡ true
      → build.sinks ≡ true
      → build.tracing ≡ false
      → do_log format_time loggable build log out ≡ (
          under (has_logcat build) (to_logcat format_time loggable build log) out >>= λ out2.
          of_result out2 (Dispatch.do_log format_time log out2.ctx))
  unfolding do_log compiles
  do_log-Android build log out fine file sinks tracing =
      ap (λ rest. under (has_logcat build) (to_logcat format_time loggable build log) out >>= rest)
        (fun_ext (λ out2. do_log_rest-Dispatch build log out2 file (ground arith) sinks tracing))

  do_log-Dispatch :
      (build : Build) (log : LogData) (out : Outputs)
      → PlainBuild build
      → do_log format_time loggable build log out
        ≡ of_result out (Dispatch.do_log format_time log out.ctx)
  unfolding do_log
  do_log-Dispatch build log out (no_android, file, no_stdout, sinks, no_tracing) =
      ap
        (λ b.
          under b (to_logcat format_time loggable build log) out
          >>= do_log_rest format_time loggable build log)
        no_android
      ∙ do_log_rest-Dispatch build log out file no_stdout sinks no_tracing

  ignored-of_result :
      (build : Build) (out : Outputs) (r : LoggerThreadCtx × Option LoggerError)
      → ignored format_time loggable build (of_result out r) ≡ goes (record out { ctx = r.0 })
  unfolding ignored
  ignored-of_result build out (ctx, none) = refl
  ignored-of_result build out (ctx, some e) = refl

  log_data_to-Dispatch :
      (build : Build) (level : LogLevel) (tag : Option Text) (message : Text) (now : Instant)
      (here : Location) (out : Outputs)
      → PlainBuild build
      → log_data_to format_time loggable build level tag message now here out
        ≡ goes (record out {
          ctx = Dispatch.log_data_to format_time out.ctx level tag message now here;
        })
  unfolding log_data_to Dispatch.log_data_to
  log_data_to-Dispatch build level tag message now here out p =
      let log = Dispatch.Laws.entry level tag message now here in
      ap (ignored format_time loggable build) (do_log-Dispatch build log out p)
      ∙ ignored-of_result build out (Dispatch.do_log format_time log out.ctx)

  backtraced :
      (build : Build) (backtrace : Bool) (captured : Text) (now : Instant) (here : Location)
      (out : Outputs)
      → PlainBuild build
      → (under backtrace
            (log_data_to format_time loggable build error (some (codes "panic")) captured now here)
            out
          >>= under false (λ out. goes out))
        ≡ goes (record out {
          ctx =
              if backtrace
              then Dispatch.log_data_to format_time out.ctx error
                  (some (codes "panic"))
                  captured
                  now
                  here
              else out.ctx;
        })
  backtraced build false captured now here out p = refl
  backtraced build true captured now here out p =
      ap (λ s. s >>= under false (λ out. goes out))
        (log_data_to-Dispatch build error (some (codes "panic")) captured now here out p)

  -- In a build with files and sinks and no other backend, the panic hook is that of the synchronous
  -- path, whether it is to capture the spans or not.
  panic_hook-Dispatch :
      (build : Build) (backtrace spantrace : Bool) (payload : Payload) (location : Location)
      (captured spans : Text) (now : Instant) (here : Location) (out : Outputs)
      → PlainBuild build
      → panic_hook format_time loggable build backtrace spantrace payload location captured spans
          now here out
        ≡ goes (record out {
          ctx =
              Dispatch.panic_hook format_time backtrace out.ctx payload location captured now here;
        })
  unfolding panic_hook Dispatch.panic_hook
  panic_hook-Dispatch build backtrace spantrace payload location captured spans now here out p =
      let said = panic_entry payload location now here in
      let tell : Text → Outputs → Stepped = λ message o.
        log_data_to format_time loggable build error (some (codes "panic")) message now here o in
      let writes : Text → LoggerThreadCtx → LoggerThreadCtx = λ message ctx.
        Dispatch.log_data_to format_time ctx error (some (codes "panic")) message now here in
      ap
        (λ s. s >>= (λ o.
          under backtrace (tell captured) o >>= under (build.tracing && spantrace) (tell spans)))
        (log_data_to-Dispatch build error (some (codes "panic")) said.message now here out p)
      ∙ ap
          (λ tracing.
            under backtrace (tell captured) (record out { ctx = writes said.message out.ctx })
            >>= under (tracing && spantrace) (tell spans))
          p.4
      ∙ backtraced build backtrace captured now here
          (record out { ctx = writes said.message out.ctx }) p
