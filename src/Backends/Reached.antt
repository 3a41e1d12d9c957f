-- ===== src/Backends/Reached.antt =====
-- Which outputs one entry reaches in a build that compiles.
use paperlog.Base.{
  ℕ, ◌≡◌, refl, sym, ap, Bool, true, false, if◌then◌else◌, Text, List, [], ◌∷◌, ◌++◌, map, none,
  All, subst,
}
use paperlog.TextMap.{get}
use paperlog.LogData.{LogData, Instant, full_line}
use paperlog.Logcat
use paperlog.FileLogger.Round.{AllSound, context_step}
use paperlog.SinkLogger.{called}
use paperlog.Backends.{
  Build, has_logcat, Outputs, goes, under, to_file, to_stdout, to_sinks, to_tracing, do_log,
  do_log_rest,
}
use paperlog.Logcat.Sends.{whole, Sendable}
use paperlog.Backends.{compiles}
use paperlog.Logcat.{Ended}
use paperlog.Backends.{to_logcat}
use paperlog.Backends.Calls.{after_call, logcat_call, logcat_step, logcat_call-whole}
use paperlog.Backends.Statements.{file_step, sinks_step}
use paperlog.Base.{Bool-cases, inl, inr, ◌∙◌, arith}

-- What a build that compiles lacks.
pub compiles-Plain :
    (build : Build)
    → compiles build ≡ true
    → (build.stdout ≡ false)
      × (build.tracing ≡ false)
      × (has_logcat build ≡ true → build.android_api_30 ≡ false)
unfolding compiles
compiles-Plain build fine =
    (ground (arith, fine), ground (arith, fine), λ on. ground (arith, fine, on))

module _ (format_time : Instant → Text) (loggable : Logcat.Priority → List ℕ → Bool) where
  -- What one entry leaves in the outputs.
  pub record Reached (build : Build) (log : LogData) (before after : Outputs) : Type 0 where
    pub android : after.android_log ≡ (
        if has_logcat build then before.android_log ++ whole false log ∷ [] else before.android_log)
    pub buffer : has_logcat build ≡ true → after.buffer ≡ []
    pub file : after.ctx.global_file.text ≡ (
        if build.file
        then before.ctx.global_file.text ++ full_line format_time log
        else before.ctx.global_file.text)
    -- the file of each context, if the entry has its tag
    pub contexts :
        (k : Text)
        → get k after.ctx.context_map ≡ (
            if build.file
            then context_step format_time k log (get k before.ctx.context_map)
            else get k before.ctx.context_map)
    pub sinks :
        after.ctx.sinks
        ≡ (if build.sinks then map (called log) before.ctx.sinks else before.ctx.sinks)
    pub printed : after.printed ≡ before.printed
    pub events : after.events ≡ before.events

  -- The statement for Android's log.
  android_step :
      (build : Build) (log : LogData) (out : Outputs)
      → (has_logcat build ≡ true → build.android_api_30 ≡ false)
      → (has_logcat build ≡ true → Sendable log × (out.buffer ≡ []))
      → (next : Outputs) × (under (has_logcat build) (to_logcat format_time loggable build log) out
          ≡ goes next)
        × (next.android_log ≡ (
            if has_logcat build then out.android_log ++ whole false log ∷ [] else out.android_log))
        × (has_logcat build ≡ true → next.buffer ≡ [])
        × (next.ctx ≡ out.ctx)
        × (next.printed ≡ out.printed)
        × (next.events ≡ out.events)
  android_step build log out old ready =
      let next = after_call format_time loggable build log out in
      let call = λ (on : has_logcat build ≡ true).
        ap (logcat_call format_time loggable build log) (ready on).1
        ∙ logcat_call-whole format_time loggable build (λ new. absurd (ground (arith, old on, new)))
            log (ready on).0 in
      (
        next,
        logcat_step format_time loggable build log out (λ on. (ready on).0.fits),
        elim (Bool-cases (has_logcat build)) [
          | inl on ↦ rw on (
              ap (λ (r : Ended × List ℕ). out.android_log ++ r.0 ∷ []) (call on)
              ∙ ap (λ b. out.android_log ++ whole b log ∷ []) (old on))
          | inr off ↦ rw off refl
        ],
        λ on.
            ap
              (λ b.
                if b then (logcat_call format_time loggable build log out.buffer).1 else out.buffer)
              on
            ∙ ap (λ (r : Ended × List ℕ). r.1) (call on),
        refl,
        refl,
        refl,
      )

  do_log-goes :
      (build : Build) (log : LogData) (out a b c : Outputs)
      → under (has_logcat build) (to_logcat format_time loggable build log) out ≡ goes a
      → under build.file (to_file format_time loggable build log) a ≡ goes b
      → under build.stdout (to_stdout format_time loggable build log) b ≡ goes b
      → under build.sinks (to_sinks format_time loggable build log) b ≡ goes c
      → under build.tracing (to_tracing format_time loggable build log) c ≡ goes c
      → do_log format_time loggable build log out ≡ goes c
  unfolding do_log do_log_rest
  do_log-goes build log out a b c ea eb none_printed ec none_emitted =
      rw (ea, eb, none_printed, ec) none_emitted

  -- In any build that compiles, if no write that is still to come fails and every sink takes the entry,
  -- `do_log` returns without an error, and of the outputs exactly those that the build has get the entry,
  -- once: Android's log, the global file and the file of its context, and every sink. If the build has
  -- Android's log, this is for an entry that has no NUL in it and whose tag has no more bytes than line,
  -- column and function in its message's frame take up, plus seven, and for an empty buffer, which is
  -- empty again.
  pub do_log-Reached :
      (build : Build) (log : LogData) (out : Outputs)
      → compiles build ≡ true
      → (has_logcat build ≡ true → Sendable log × (out.buffer ≡ []))
      → AllSound out.ctx
      → All (λ sink. sink.reply sink.received log ≡ none) out.ctx.sinks
      → (after : Outputs) × (do_log format_time loggable build log out ≡ goes after)
        × Reached build log out after
  do_log-Reached build log out fine ready sound willing =
      let (no_stdout, no_tracing, old) = compiles-Plain build fine in
      let (out1, sent, android, buffer, same_ctx, same_printed, same_events) =
        android_step build log out old ready in
      let (ctx, filed, text, contexts, same) =
        file_step format_time loggable build.file build log out1
          (subst AllSound (sym same_ctx) sound) in
      let accepted =
        subst (All (λ sink. sink.reply sink.received log ≡ none))
          (sym (same ∙ ap (λ c. c.sinks) same_ctx)) willing in
      let out2 : Outputs = record out1 { ctx = ctx } in
      let out3 : Outputs = record out2 {
        ctx = record ctx { sinks = if build.sinks then map (called log) ctx.sinks else ctx.sinks };
      } in
      (
        out3,
        do_log-goes build log out out1 out2 out3 sent filed
            (ap (λ on. under on (to_stdout format_time loggable build log) out2) no_stdout)
            (sinks_step format_time loggable build.sinks build log out2 accepted)
            (ap (λ on. under on (to_tracing format_time loggable build log) out3) no_tracing),
        record {
          android = android;
          buffer = buffer;
          file =
              text
              ∙ ap
                  (λ c.
                    if build.file
                    then c.global_file.text ++ full_line format_time log
                    else c.global_file.text)
                  same_ctx;
          contexts = λ k.
              contexts k
              ∙ ap
                  (λ c.
                    if build.file
                    then context_step format_time k log (get k c.context_map)
                    else get k c.context_map)
                  same_ctx;
          sinks =
              ap (λ sinks. if build.sinks then map (called log) sinks else sinks)
                (same ∙ ap (λ c. c.sinks) same_ctx);
          printed = same_printed;
          events = same_events;
        },
      )
