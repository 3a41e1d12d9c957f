-- ===== src/Backends/Android.antt =====
-- What Android's log has had along the schedules of a build with files and sinks.
use paperlog.Base.{
  ◌≡◌, ◌<◌, refl, sym, ap, ◌∙◌, subst, Bool, true, if◌then◌else◌, List, [], ◌∷◌, ◌++◌, map, ℕ, zero,
  suc, some, All, All-mono, All-append, All-front, append_assoc, append-nil, arith, Text,
}
use paperlog.LogData.{LogData}
use paperlog.Chunks.{IsChunks, with_message}
use paperlog.Chunks.Lines.{PiecesOf}
use paperlog.Chunks.Laws.{split_str_into_chunks-CutOf}
use paperlog.Chunks.Bounds.{CutOf-All}
use paperlog.Logcat
use paperlog.Logcat.{Ended}
use paperlog.Logcat.Laws.{NoNul}
use paperlog.Logcat.Pieces.{NoNul-pieces}
use paperlog.Logcat.Sends.{whole, Sendable}
use paperlog.LoggerThreadCtx.{LoggerThreadCtx}
use paperlog.LogThread.{Crates}
use paperlog.LogThread.Handed.{Handed}
use paperlog.LogThread.Pieces.{Begins, Handed-Begins}
use paperlog.LogThread.Serves.{IsAlive}
use paperlog.Protocol
use paperlog.Protocol.{System, Event, push, start}
use paperlog.Protocol.Entries.{PushesOnly, Queues-All}
use paperlog.Protocol.Moves.{
  Move, queues, signalled, stepped, requests, waits, wakes, gives_up, administers,
}
use paperlog.Protocol.Order.{queued-split}
use paperlog.Protocol.Record.{IsNew}
use paperlog.Protocol.Schedules.{run-keeps}
use paperlog.Backends.{Build, has_logcat, Outputs}
use paperlog.Backends.Printed.{run-Telling}
use paperlog.Backends.Runs.{World, outputs, started, run}
use paperlog.Backends.Schedules.{systems, run-systems}
use paperlog.Backends.Simulation.{FilesAndSinks}
use paperlog.Backends.Calls.{Suits, logcat_call-whole, android, calls}

Sendable-pieces :
    (n : ℕ) (log : LogData) (cs : List Text)
    → Sendable log
    → PiecesOf n log.message cs
    → All Sendable (map (with_message log) cs)
unfolding Logcat.tag_bytes
Sendable-pieces n log cs s of = with_fits cs (NoNul-pieces n log cs s.no_nul of)
  where
    with_fits :
        (cs : List Text)
        → All NoNul (map (with_message log) cs)
        → All Sendable (map (with_message log) cs)
    with_fits [] a = tt
    with_fits (c ∷ cs) a = (record { no_nul = a.0; fits = s.fits }, with_fits cs a.1)

module _ (crates : Crates) where
  open crates use {chunks}

  -- What was queued is what the events push.
  Move-queued :
      {e : Event} {s t : System}
      → PushesOnly Sendable e
      → Move crates e s t
      → All Sendable s.queued
      → All Sendable t.queued
  Move-queued {e} {s} a (queues logs b free eq) h =
      rw eq (All-append Sendable s.queued logs h (Queues-All Sendable e logs a b))
  Move-queued a (signalled k p eq) h = rw eq h
  Move-queued a (stepped ctx thread moved free eq) h = rw eq h
  Move-queued a (requests w p eq) h = rw eq h
  Move-queued a (waits w d b p eq) h = rw eq h
  Move-queued a (wakes w d b p eq) h = rw eq h
  Move-queued a (gives_up d p eq) h = rw eq h
  Move-queued a (administers ctx free quiet out keeps spares eq) h = rw eq h

  pub Begins-Sendable :
      (laws : IsChunks chunks) (n : ℕ) (took got : List LogData)
      → 0 < n
      → Begins crates n took got
      → All Sendable took
      → All Sendable got
  Begins-Sendable laws zero took got pos b a = absurd (omega (arith, pos))
  Begins-Sendable laws (suc n) took got pos b a =
      let (out, e, cut) = split_str_into_chunks-CutOf laws n b.done in
      let same : out ≡ got ++ b.rest =
        let both : some out ≡ some (got ++ b.rest) = sym e ∙ b.cut in ground (arith, both) in
      All-front Sendable got b.rest (
        subst (All Sendable) same (
          CutOf-All Sendable (suc n) (Sendable-pieces (suc n)) b.done out cut
            (All-front Sendable b.done b.left (subst (All Sendable) b.taken_in_order a))))

  pub run-queued :
      (ctx : LoggerThreadCtx) (es : List Event) (s : System)
      → All (PushesOnly Sendable) es
      → Protocol.run crates es (start ctx) ≡ some s
      → All Sendable s.queued
  unfolding start
  run-queued ctx es s a ran =
      run-keeps crates (λ s. All Sendable s.queued) (PushesOnly Sendable)
        (λ e s t b m h. Move-queued b m h) es (start ctx) s a tt ran

  module _ (loggable : Logcat.Priority → List ℕ → Bool) (build : Build)
      (open_log : build.android_api_30 ≡ true
        → (p : Logcat.Priority) (tag : List ℕ) → loggable p tag ≡ true) where
    open crates use {format_time}

    PushesOnly-Suits : (e : Event) → PushesOnly Sendable e → PushesOnly (Suits build) e
    PushesOnly-Suits (push logs) a = All-mono (λ log s on. s.fits) logs a
    PushesOnly-Suits _ a = ground arith

    pub calls-whole :
        (logs : List LogData) (had : List Ended)
        → All Sendable logs
        → calls format_time loggable build logs (had, [])
          ≡ (had ++ map (whole build.android_api_30) logs, [])
    unfolding calls
    calls-whole [] had a = rw (append-nil had) refl
    calls-whole (log ∷ logs) had a =
        rw (logcat_call-whole format_time loggable build open_log log a.0) (
          calls-whole logs (had ++ whole build.android_api_30 log ∷ []) a.1
          ∙ ap (λ l. (l, []))
              (append_assoc had (whole build.android_api_30 log ∷ [])
                (map (whole build.android_api_30) logs)))

    -- Android's log has had the pieces of the entries taken, whole, but for those in hand.
    pub record LogHas (out : Outputs) (w : World) : Type 0 where
      pub got : List LogData
      pub handed : Handed crates out.ctx.config.max_string_len w.system.thread.pc w.system.took got
      pub calls : w.android_log ≡ out.android_log ++ map (whole build.android_api_30) got
      pub empty : w.buffer ≡ []

    -- In every state that a schedule of a build with files, sinks and Android's log reaches from a new
    -- logger with a positive limit and an empty buffer, as long as the thread has not failed or
    -- panicked: Android's log has had one call for each piece of the entries taken, in order, but for
    -- those in hand, with the priority of its level, its tag and its message whole, with its file and
    -- line if the build is android-api-30, and the buffer is empty again. This is for schedules that
    -- queue only entries that have no NUL in them and whose tag has no more bytes than line, column
    -- and function in their message's frame take up, plus seven; with android-api-30 every priority
    -- and tag has to be loggable.
    pub run-LogHas :
        (laws : IsChunks chunks) (out : Outputs) (es : List Event) (w : World)
        → FilesAndSinks build
        → has_logcat build ≡ true
        → 0 < out.ctx.config.max_string_len
        → IsNew out.ctx
        → out.buffer ≡ []
        → All (PushesOnly Sendable) es
        → run crates loggable build es (started out) ≡ some w
        → IsAlive w.system.thread.pc
        → LogHas out w
    unfolding systems
    run-LogHas laws out es w plain on pos new clear sendable ran alive =
        let n = out.ctx.config.max_string_len in
        let suits = All-mono PushesOnly-Suits es sendable in
        let telling = run-Telling crates loggable build out es w plain new suits ran alive in
        let below : Protocol.run crates es (start out.ctx) ≡ some w.system =
          sym (run-systems crates loggable build es out plain new suits) ∙ ap systems ran in
        let all = All-front Sendable w.system.took w.system.ctx.log_queue (
          subst (All Sendable) (queued-split crates out.ctx es w.system new.queue below)
            (run-queued out.ctx es w.system sendable below)) in
        let clean =
          Begins-Sendable laws n w.system.took telling.got pos
            (Handed-Begins crates n w.system.thread.pc w.system.took telling.got alive
              telling.handed)
            all in
        let had : (w.android_log, w.buffer)
            ≡ (out.android_log ++ map (whole build.android_api_30) telling.got, []) =
          subst
            (λ b. android (outputs w) ≡ (
              if b
              then calls format_time loggable build telling.got (android out)
              else android out))
            on telling.told.android
          ∙ ap (λ b. calls format_time loggable build telling.got (out.android_log, b)) clear
          ∙ calls-whole telling.got out.android_log clean in
        record {
          got = telling.got;
          handed = telling.handed;
          calls = ap (λ (r : List Ended × List ℕ). r.0) had;
          empty = ap (λ (r : List Ended × List ℕ). r.1) had;
        }
