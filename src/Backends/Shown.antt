-- ===== src/Backends/Shown.antt =====
-- What a build with files and sinks shows of the entries: the lines on the standard output, the events of
-- the tracing crate and the calls of Android's log.
-- No build with stdout or tracing compiles (`compiles` of Backends): for these the source is read as
-- if the calls of `log_thread` found their modules.
use paperlog.Base.{
  ◌≡◌, refl, sym, ap, ◌∙◌, Bool, true, false, if◌then◌else◌, Text, newline, concat, concat-append,
  map, append_assoc, append-nil, List, [], ◌∷◌, ◌++◌, ℕ, Option, none, some, if-both,
}
use mathlib.Core.List.{map-append}
use paperlog.LogData.{LogData, format, Instant}
use paperlog.LoggerError.{LoggerError}
use paperlog.LoggerThreadCtx.{LoggerThreadCtx}
use paperlog.Logcat
use paperlog.Logcat.{Ended}
use paperlog.SinkLogger
use paperlog.TracingLogger.Laws.{told, do_log-told}
use paperlog.Backends.{
  Build, has_logcat, Outputs, Stepped, goes, ends, panics, under, ◌>>=◌, after_sinks, to_tracing,
  to_sinks, hand_rest, hand_one,
}
use paperlog.Backends.Loop.{nothing}
use paperlog.Backends.Calls.{
  Suits, after_call, logcat_step, android, calls, calls-twice, android-call,
}
use paperlog.Backends.Statements.{stdout_step, tracing_step}

-- What was shown of some entries.
pub record Told (format_time : Instant → Text) (loggable : Logcat.Priority → List ℕ → Bool)
    (build : Build) (logs : List LogData) (before after : Outputs) : Type 0 where
  pub android : android after ≡ (
      if has_logcat build
      then calls format_time loggable build logs (android before)
      else android before)
  pub printed : after.printed ≡ (
      if build.stdout
      then before.printed ++ concat (map (λ log. format format_time log ++ newline ∷ []) logs)
      else before.printed)
  pub events : after.events ≡ (
      if build.tracing
      then before.events ++ concat (map (told format_time) logs)
      else before.events)

-- What is appended under a `cfg`, twice, for the entries in two parts.
twice :
    (on : Bool) {B : Type 0} (f : LogData → List B) (xs ys : List LogData) (a b c : List B)
    → b ≡ (if on then a ++ concat (map f xs) else a)
    → c ≡ (if on then b ++ concat (map f ys) else b)
    → c ≡ (if on then a ++ concat (map f (xs ++ ys)) else a)
twice false f xs ys a b c p q = q ∙ p
twice true f xs ys a b c p q =
    q
    ∙ ap (λ l. l ++ concat (map f ys)) p
    ∙ append_assoc a (concat (map f xs)) (concat (map f ys))
    ∙ ap (◌++◌ a) (sym (ap concat (map-append f xs ys) ∙ concat-append (map f xs) (map f ys)))

abbrev pub OnGoes : (Outputs → Type 0) → Stepped → Type 0
OnGoes P (goes out) = P out
OnGoes P _ = Unit

module _ (format_time : Instant → Text) (loggable : Logcat.Priority → List ℕ → Bool)
    (build : Build) where
  pub nothing_told :
      (before after : Outputs)
      → after.printed ≡ before.printed
      → after.events ≡ before.events
      → android after ≡ android before
      → Told format_time loggable build [] before after
  unfolding calls
  nothing_told before after p e a = record {
    android =
        a
        ∙ if-both (λ r. android before ≡ r) (has_logcat build)
            (calls format_time loggable build [] (android before)) (android before) refl refl;
    printed = p ∙ sym (nothing build.stdout before.printed);
    events = e ∙ sym (nothing build.tracing before.events);
  }

  pub also_told :
      (first rest : List LogData) (a b c : Outputs)
      → Told format_time loggable build first a b
      → Told format_time loggable build rest b c
      → Told format_time loggable build (first ++ rest) a c
  also_told first rest a b c f r = record {
    android =
        calls-twice format_time loggable build (has_logcat build) first rest (android a) (android b)
          (android c) f.android r.android;
    printed =
        twice build.stdout (λ log. format format_time log ++ newline ∷ []) first rest a.printed
          b.printed c.printed f.printed r.printed;
    events =
        twice build.tracing (told format_time) first rest a.events b.events c.events f.events
          r.events;
  }

  -- The events alone are extended.
  Emits : LogData → Outputs → Outputs → Type 0
  Emits log before after =
      (after.printed ≡ before.printed)
      × (android after ≡ android before)
      × (after.events
          ≡ (if build.tracing then before.events ++ told format_time log else before.events))

  tracing-Emits :
      (log : LogData) (out : Outputs)
      → OnGoes (Emits log out) (under build.tracing (to_tracing format_time loggable build log) out)
  unfolding Emits
  tracing-Emits log out = rw (tracing_step format_time loggable build.tracing build log out) (
    refl,
    refl,
    ap (λ events. if build.tracing then events else out.events)
        (do_log-told format_time log out.events),
  )

  after_sinks-Emits :
      (log : LogData) (out : Outputs) (r : LoggerThreadCtx × Option LoggerError)
      → OnGoes
          (Emits log out)
          (after_sinks out r >>= under build.tracing (to_tracing format_time loggable build log))
  unfolding after_sinks Emits
  after_sinks-Emits log out (ctx, some e) = tt
  after_sinks-Emits log out (ctx, none) = tracing-Emits log (record out { ctx = ctx })

  sinks-Emits :
      (on : Bool) (log : LogData) (out : Outputs)
      → OnGoes (Emits log out) (
          under on (to_sinks format_time loggable build log) out
          >>= under build.tracing (to_tracing format_time loggable build log))
  unfolding to_sinks
  sinks-Emits false log out = tracing-Emits log out
  sinks-Emits true log out = after_sinks-Emits log out (SinkLogger.do_log log out.ctx)

  Told-one :
      (log : LogData) (a b c : Outputs)
      → b.printed
        ≡ (if build.stdout then a.printed ++ format format_time log ++ newline ∷ [] else a.printed)
      → b.events ≡ a.events
      → android b ≡ (
          if has_logcat build
          then calls format_time loggable build (log ∷ []) (android a)
          else android a)
      → Emits log b c
      → Told format_time loggable build (log ∷ []) a c
  unfolding Emits
  Told-one log a b c p e d h = record {
    android = h.1 ∙ d;
    printed =
        h.0
        ∙ p
        ∙ ap (λ text. if build.stdout then text else a.printed)
            (append_assoc a.printed (format format_time log) (newline ∷ [])
              ∙ ap (◌++◌ a.printed) (sym (append-nil (format format_time log ++ newline ∷ []))));
    events =
        h.2
        ∙ ap (λ events. if build.tracing then events ++ told format_time log else events) e
        ∙ ap (λ more. if build.tracing then a.events ++ more else a.events)
            (sym (append-nil (told format_time log)));
  }

  OnGoes-mono :
      {P Q : Outputs → Type 0} (s : Stepped) → ((o : Outputs) → P o → Q o) → OnGoes P s → OnGoes Q s
  OnGoes-mono (goes o) f p = f o p
  OnGoes-mono (ends o e) f p = tt
  OnGoes-mono (panics o) f p = tt

  pub hand_one-Told :
      (log : LogData) (out : Outputs)
      → Suits build log
      → OnGoes
          (Told format_time loggable build (log ∷ []) out)
          (hand_one format_time loggable build log out)
  unfolding hand_one hand_rest
  hand_one-Told log out suits =
      let out1 = after_call format_time loggable build log out in
      let out2 : Outputs = record out1 {
        printed =
            if build.stdout
            then out.printed ++ format format_time log ++ newline ∷ []
            else out.printed;
      } in
      rw
        (
          logcat_step format_time loggable build log out suits,
          stdout_step format_time loggable build.stdout build log out1,
        )
        (OnGoes-mono
          (under build.sinks (to_sinks format_time loggable build log) out2
            >>= under build.tracing (to_tracing format_time loggable build log))
          (λ o. Told-one log out out2 o refl refl (android-call format_time loggable build log out))
          (sinks-Emits build.sinks log out2))
