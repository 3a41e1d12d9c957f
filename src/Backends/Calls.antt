-- ===== src/Backends/Calls.antt =====
-- The calls of Android's log that entries make in a build that has it.
use paperlog.Base.{
  sym, ◌≡◌, ◌≢◌, ◌≤◌, ◌++◌, ◌∷◌, if-both, length, [], ◌∙◌, refl, ap, Bool, Bool-cases, inl, inr,
  true, false, if◌then◌else◌, Text, List, ℕ, arith,
}
use paperlog.LogData.{LogData, Instant}
use paperlog.Logcat
use paperlog.Logcat.{Ended}
use paperlog.Logcat.Sends.{whole, Sendable, do_log_api_30-sends}
use paperlog.Logcat.Laws.{do_log-sends, spare, do_log-fits, do_log_api_30-fits}
use paperlog.Chunks.{with_message}
use paperlog.Backends.{Build, has_logcat, Outputs, goes, under, after_logcat, to_logcat}

-- In a build with Android's log: the tag has no more bytes than line, column and function in the frame
-- of the message take up, plus seven.
abbrev pub Suits : Build → LogData → Type 0
Suits build log = has_logcat build ≡ true → length (Logcat.tag_bytes log) ≤ spare log

pub Suits-with_message :
    (build : Build) (log : LogData) (piece : Text)
    → Suits build log
    → Suits build (with_message log piece)
unfolding Logcat.tag_bytes
Suits-with_message build log piece fits = fits

-- The calls of Android's log so far, and the buffer of the logging thread.
abbrev pub android : Outputs → List Ended × List ℕ
android out = (out.android_log, out.buffer)

after_logcat-goes :
    (out : Outputs) (r : Ended × List ℕ)
    → r.0 ≢ Logcat.panicked
    → after_logcat out r
      ≡ goes (record out { android_log = out.android_log ++ r.0 ∷ []; buffer = r.1 })
unfolding after_logcat
after_logcat-goes out (Logcat.sent x, buffer) h = refl
after_logcat-goes out (Logcat.skipped, buffer) h = refl
after_logcat-goes out (Logcat.panicked, buffer) h = absurd (h refl)

module _ (format_time : Instant → Text) (loggable : Logcat.Priority → List ℕ → Bool)
    (build : Build) where
  -- The call of Android's log that an entry makes, and the buffer behind it.
  abbrev pub logcat_call : LogData → List ℕ → Ended × List ℕ
  logcat_call log buffer =
      if build.android_api_30
      then Logcat.do_log_api_30 loggable log buffer
      else Logcat.do_log log buffer

  -- The outputs behind the statement for Android's log.
  abbrev pub after_call : LogData → Outputs → Outputs
  after_call log out = record out {
    android_log =
        if has_logcat build
        then out.android_log ++ (logcat_call log out.buffer).0 ∷ []
        else out.android_log;
    buffer = if has_logcat build then (logcat_call log out.buffer).1 else out.buffer;
  }

  logcat_call-fits :
      (log : LogData) (buffer : List ℕ)
      → length (Logcat.tag_bytes log) ≤ spare log
      → (logcat_call log buffer).0 ≢ Logcat.panicked
  logcat_call-fits log buffer fits =
      if-both (λ (r : Ended × List ℕ). r.0 ≢ Logcat.panicked) build.android_api_30
        (Logcat.do_log_api_30 loggable log buffer) (Logcat.do_log log buffer)
        (do_log_api_30-fits loggable log buffer (omega arith))
        (do_log-fits log buffer (omega arith))

  pub logcat_step :
      (log : LogData) (out : Outputs)
      → Suits build log
      → under (has_logcat build) (to_logcat format_time loggable build log) out
        ≡ goes (after_call log out)
  unfolding to_logcat
  logcat_step log out suits = elim (Bool-cases (has_logcat build)) [
    | inl on ↦
        rw (on, under)
          (after_logcat-goes out (logcat_call log out.buffer)
            (logcat_call-fits log out.buffer (suits on)))
    | inr off ↦ rw (off, under) refl
  ]

  -- The calls of Android's log that some entries make, one behind the other.
  unfoldable pub calls : List LogData → List Ended × List ℕ → List Ended × List ℕ
  calls [] (had, buffer) = (had, buffer)
  calls (log ∷ logs) (had, buffer) =
      let call = logcat_call log buffer in calls logs (had ++ call.0 ∷ [], call.1)

  calls-append :
      (xs ys : List LogData) (a : List Ended × List ℕ) → calls (xs ++ ys) a ≡ calls ys (calls xs a)
  unfolding calls
  calls-append [] ys (had, buffer) = refl
  calls-append (log ∷ xs) ys (had, buffer) = calls-append xs ys _

  -- Two parts of the entries, under a `cfg`.
  pub calls-twice :
      (on : Bool) (xs ys : List LogData) (a b c : List Ended × List ℕ)
      → b ≡ (if on then calls xs a else a)
      → c ≡ (if on then calls ys b else b)
      → c ≡ (if on then calls (xs ++ ys) a else a)
  calls-twice false xs ys a b c p q = q ∙ p
  calls-twice true xs ys a b c p q = q ∙ ap (calls ys) p ∙ sym (calls-append xs ys a)

  pub android-call :
      (log : LogData) (out : Outputs)
      → android (after_call log out)
        ≡ (if has_logcat build then calls (log ∷ []) (android out) else android out)
  unfolding calls
  android-call log out = elim (Bool-cases (has_logcat build)) [
    | inl on ↦ rw (on) refl
    | inr off ↦ rw (off) refl
  ]

  pub logcat_call-whole :
      (build.android_api_30 ≡ true → (p : Logcat.Priority) (tag : List ℕ) → loggable p tag ≡ true)
      → (log : LogData) → Sendable log
      → logcat_call log [] ≡ (whole build.android_api_30 log, [])
  logcat_call-whole open_log log s = elim (Bool-cases build.android_api_30) [
    | inl on ↦
        rw on (do_log_api_30-sends loggable log (open_log on _ _) s.no_nul (omega (arith, s.fits)))
    | inr off ↦ rw off (do_log-sends log s.no_nul (omega (arith, s.fits)))
  ]
