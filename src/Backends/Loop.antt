-- ===== src/Backends/Loop.antt =====
-- The loop of the logging thread over the backends, for a whole batch, in a build without Android's
-- log.
use paperlog.Base.{
  ◌≡◌, refl, sym, ap, ◌∙◌, Bool, true, false, if◌then◌else◌, Text, newline, List, [], ◌∷◌, ◌++◌,
  map, concat, All, append_assoc, append-nil, All-mono, ℕ,
}
use paperlog.LogData.{LogData, Instant, format}
use paperlog.LoggerThreadCtx.{Sink}
use paperlog.LogThread.Health.{Willing}
use paperlog.SinkLogger.{called}
use paperlog.SinkLogger.Served.{served, served-nil, served-called}
use paperlog.Logcat
use paperlog.TracingLogger
use paperlog.TracingLogger.Laws.{told, do_log-told}
use paperlog.Backends.{
  Build, has_logcat, Outputs, goes, under, ◌>>=◌, to_stdout, to_sinks, to_tracing, hand_rest,
  hand_one, hand,
}
use paperlog.Backends.Statements.{stdout_step, sinks_step, tracing_step}

called-Willing :
    (log : LogData) (sinks : List Sink) → All Willing sinks → All Willing (map (called log) sinks)
called-Willing log [] all = tt
called-Willing log (sink ∷ sinks) all = (all.0, called-Willing log sinks all.1)

-- What is appended under a `cfg`, in two parts.
appended :
    (on : Bool) {A : Type 0} (old first rest : List A)
    → (if on
        then (if on then old ++ first else old) ++ rest
        else (if on then old ++ first else old))
      ≡ (if on then old ++ (first ++ rest) else old)
appended true old first rest = append_assoc old first rest
appended false old first rest = refl

pub nothing : (on : Bool) {A : Type 0} (old : List A) → (if on then old ++ [] else old) ≡ old
nothing true old = append-nil old
nothing false old = refl

no_more : (on : Bool) (sinks : List Sink) → (if on then map (served []) sinks else sinks) ≡ sinks
no_more true sinks = served-nil sinks
no_more false sinks = refl

both :
    (on : Bool) (log : LogData) (logs : List LogData) (sinks : List Sink)
    → (if on
        then map (served logs) (if on then map (called log) sinks else sinks)
        else (if on then map (called log) sinks else sinks))
      ≡ (if on then map (served (log ∷ logs)) sinks else sinks)
both true log logs sinks = served-called log logs sinks
both false log logs sinks = refl

module _ (format_time : Instant → Text) (loggable : Logcat.Priority → List ℕ → Bool)
    (build : Build) where
  abbrev line : LogData → Text
  line log = format format_time log ++ newline ∷ []

  -- The outputs behind a batch.
  abbrev served_all : List LogData → Outputs → Outputs
  served_all logs out = record out {
    ctx = record out.ctx {
      sinks = if build.sinks then map (served logs) out.ctx.sinks else out.ctx.sinks;
    };
    printed = if build.stdout then out.printed ++ concat (map line logs) else out.printed;
    events =
        if build.tracing then out.events ++ concat (map (told format_time) logs) else out.events;
  }

  after_one : LogData → Outputs → Outputs
  after_one log out = record out {
    ctx = record out.ctx {
      sinks = if build.sinks then map (called log) out.ctx.sinks else out.ctx.sinks;
    };
    printed = if build.stdout then out.printed ++ line log else out.printed;
    events = if build.tracing then out.events ++ told format_time log else out.events;
  }

  -- The three statements behind Android's log, one after the other.
  hand_one-statements :
      (log : LogData) (out a b c : Outputs)
      → has_logcat build ≡ false
      → under build.stdout (to_stdout format_time loggable build log) out ≡ goes a
      → under build.sinks (to_sinks format_time loggable build log) a ≡ goes b
      → under build.tracing (to_tracing format_time loggable build log) b ≡ goes c
      → hand_one format_time loggable build log out ≡ goes c
  unfolding hand_one hand_rest
  hand_one-statements log out a b c no_android ea eb ec = rw (no_android, ea, eb) ec

  hand_one-goes :
      (log : LogData) (out : Outputs)
      → has_logcat build ≡ false
      → All Willing out.ctx.sinks
      → hand_one format_time loggable build log out ≡ goes (after_one log out)
  unfolding after_one
  hand_one-goes log out no_android willing =
      let accepted = All-mono (λ sink w. w sink.received log) out.ctx.sinks willing in
      let out2 : Outputs = record out {
        printed = if build.stdout then out.printed ++ line log else out.printed;
      } in
      let out3 : Outputs = record out2 {
        ctx = record out.ctx {
          sinks = if build.sinks then map (called log) out.ctx.sinks else out.ctx.sinks;
        };
      } in
      hand_one-statements log out out2 out3
        (record out3 {
          events =
              if build.tracing then TracingLogger.do_log format_time log out.events else out.events;
        })
        no_android
        (stdout_step format_time loggable build.stdout build log out
          ∙ ap
              (λ printed.
                goes (record out { printed = if build.stdout then printed else out.printed }))
              (append_assoc out.printed (format format_time log) (newline ∷ [])))
        (sinks_step format_time loggable build.sinks build log out2 accepted)
        (tracing_step format_time loggable build.tracing build log out3)
      ∙ ap (λ events. goes (record out3 { events = if build.tracing then events else out.events }))
          (do_log-told format_time log out.events)

  stays_Willing :
      (on : Bool) (log : LogData) (sinks : List Sink)
      → All Willing sinks
      → All Willing (if on then map (called log) sinks else sinks)
  stays_Willing true log sinks all = called-Willing log sinks all
  stays_Willing false log sinks all = all

  served_all-nil : (out : Outputs) → served_all [] out ≡ out
  served_all-nil out =
      rw
        (
          nothing build.stdout out.printed,
          nothing build.tracing out.events,
          no_more build.sinks out.ctx.sinks,
        )
        refl

  served_all-cons :
      (log : LogData) (logs : List LogData) (out : Outputs)
      → served_all logs (after_one log out) ≡ served_all (log ∷ logs) out
  unfolding after_one
  served_all-cons log logs out =
      rw
        (
          both build.sinks log logs out.ctx.sinks,
          appended build.stdout out.printed (line log) (concat (map line logs)),
          appended build.tracing out.events (told format_time log)
              (concat (map (told format_time) logs)),
        )
        refl

  -- In any build without Android's log whose sinks take every entry, the loop over a batch goes
  -- through without an error: each sink, the standard output and the events, as far as the build
  -- has them, get every entry of the batch, once and in order, but for the events of the level off.
  hand-goes :
      (logs : List LogData) (out : Outputs)
      → has_logcat build ≡ false
      → All Willing out.ctx.sinks
      → hand format_time loggable build logs out ≡ goes (served_all logs out)
  unfolding hand after_one
  hand-goes [] out no_android willing = ap goes (sym (served_all-nil out))
  hand-goes (log ∷ logs) out no_android willing =
      ap (λ s. s >>= hand format_time loggable build logs)
        (hand_one-goes log out no_android willing)
      ∙ hand-goes logs (after_one log out) no_android
          (stays_Willing build.sinks log out.ctx.sinks willing)
      ∙ ap goes (served_all-cons log logs out)
