-- ===== src/Backends/Compiled.antt =====
-- What becomes of every entry in a healthy logger, in the builds that compile.
use paperlog.Base.{
  ◌≡◌, ◌<◌, refl, sym, ap, ◌∙◌, arith, Bool, true, false, if◌then◌else◌, Bool-cases, inl, inr, List,
  [], ◌∷◌, ◌++◌, map, length, ℕ, some, All, All-mono,
}
use paperlog.LogData.{LogData}
use paperlog.Chunks.{IsChunks, split_str_into_chunks}
use paperlog.Logcat
use paperlog.Logcat.{Ended}
use paperlog.Logcat.Sends.{whole, Sendable}
use paperlog.LogThread.{Crates}
use paperlog.LogThread.Health.{Healthy}
use paperlog.LogThread.Pieces.{whole-Begins}
use paperlog.Protocol
use paperlog.Protocol.{Event, push, start}
use paperlog.Protocol.Clients.{Fair}
use paperlog.Protocol.Complete.{Done}
use paperlog.Protocol.Delivery.{EndsBy, EndsBy-keeps}
use paperlog.Protocol.Entries.{PushesOnly}
use paperlog.Protocol.Handing.{Unused}
use paperlog.Protocol.Record.{IsNew}
use paperlog.Backends.{Build, has_logcat, compiles, Outputs}
use paperlog.Backends.Android.{Begins-Sendable, run-queued, calls-whole}
use paperlog.Backends.Calls.{Suits, android, calls}
use paperlog.Backends.Complete.{AllTold, run-AllTold}
use paperlog.Backends.Reached.{compiles-Plain}
use paperlog.Backends.Runs.{World, started, perform, run}
use paperlog.Backends.Schedules.{systems, run-systems}
use paperlog.Backends.Simulation.{FilesAndSinks}

module _ (crates : Crates) (loggable : Logcat.Priority → List ℕ → Bool) (build : Build) where
  open crates use {chunks, format_time}

  -- The logger is done with the entries of `w`: behind `out`, Android's log has had all their pieces.
  pub record AllSent (n k : ℕ) (out : Outputs) (w v : World) : Type 0 where
    pub done : Done crates n k w.system v.system
    pub pieces : List LogData
    pub cut : split_str_into_chunks chunks w.system.queued n ≡ some pieces
    pub sent : v.android_log ≡ (
        if has_logcat build then out.android_log ++ map (whole false) pieces else out.android_log)

  -- What is asked of a schedule in a build with Android's log.
  abbrev pub SendsOnly : List Event → Type 0
  SendsOnly es = has_logcat build ≡ true → All (PushesOnly Sendable) es

  SendsOnly-Suits : (es : List Event) → SendsOnly es → All (PushesOnly (Suits build)) es
  SendsOnly-Suits es sends = elim (Bool-cases (has_logcat build)) [
    | inl on ↦ All-mono of_event es (sends on)
    | inr off ↦ all_suit es off
  ]
    where
      of_event : (e : Event) → PushesOnly Sendable e → PushesOnly (Suits build) e
      of_event (push logs) a = All-mono (λ log s on. s.fits) logs a
      of_event _ a = ground arith

      suit : (logs : List LogData) → has_logcat build ≡ false → All (Suits build) logs
      suit [] off = tt
      suit (log ∷ logs) off = (λ on. absurd (ground (arith, on, off)), suit logs off)

      any_event : (e : Event) → has_logcat build ≡ false → PushesOnly (Suits build) e
      any_event (push logs) off = suit logs off
      any_event _ off = ground arith

      all_suit : (es : List Event) → has_logcat build ≡ false → All (PushesOnly (Suits build)) es
      all_suit [] off = tt
      all_suit (e ∷ es) off = (any_event e off, all_suit es off)

  pieces-sent :
      (laws : IsChunks chunks) (n : ℕ) (out : Outputs) (queued pieces : List LogData)
      (had : List Ended)
      → compiles build ≡ true
      → 0 < n
      → (has_logcat build ≡ true → All Sendable queued × (out.buffer ≡ []))
      → split_str_into_chunks chunks queued n ≡ some pieces
      → had
        ≡ (if has_logcat build
            then calls format_time loggable build pieces (android out)
            else android out).0
      → had ≡ (
          if has_logcat build then out.android_log ++ map (whole false) pieces else out.android_log)
  pieces-sent laws n out queued pieces had fine pos ready cut told =
      elim (Bool-cases (has_logcat build)) [
        | inr off ↦ told ∙ rw off refl
        | inl on ↦
            let old = (compiles-Plain build fine).2 on in
            let clean =
              Begins-Sendable crates laws n queued pieces pos
                (whole-Begins crates n queued pieces cut) (ready on).0 in
            let sent =
              calls-whole crates loggable build (λ new. absurd (ground (arith, old, new))) pieces
                out.android_log clean in
            told
            ∙ rw on (
                ap (λ b. (calls format_time loggable build pieces (out.android_log, b)).0)
                  (ready on).1
                ∙ ap (λ (r : List Ended × List ℕ). r.0) sent
                ∙ ap (λ b. out.android_log ++ map (whole b) pieces) old)
      ]

  -- Every entry reaches every backend, in a build that compiles and has files and sinks: from a new,
  -- healthy logger whose sinks have had nothing, after any schedule of fair events, if no client makes a
  -- new call, the calls under way and the thread always come to an end after finitely many events, in
  -- whatever order these happen, and as long as they have not, one can happen. At the end the logger is
  -- quiet, the global file holds what all the entries queued print, all of it flushed, each sink of the
  -- start has had their pieces, and Android's log, if the build has it, one call for each piece, with its
  -- level's priority, its tag and its message whole, once each and in order. In a build with Android's
  -- log this is for an empty buffer at the start and for schedules that queue only entries that have no
  -- NUL in them and whose tag has no more bytes than line, column and function in their message's frame
  -- take up, plus seven.
  pub run-AllSent :
      (laws : IsChunks chunks) (out : Outputs) (es : List Event) (w : World)
      → compiles build ≡ true
      → FilesAndSinks build
      → IsNew out.ctx
      → Healthy out.ctx
      → All Unused out.ctx.sinks
      → All Fair es
      → SendsOnly es
      → (has_logcat build ≡ true → out.buffer ≡ [])
      → run crates loggable build es (started out) ≡ some w
      → EndsBy
          (perform crates loggable build)
          (AllSent out.ctx.config.max_string_len (length out.ctx.sinks) out w)
          w
  unfolding systems
  run-AllSent laws out es w fine plain new healthy unused fair sends clear ran =
      let n = out.ctx.config.max_string_len in
      let k = length out.ctx.sinks in
      let suits = SendsOnly-Suits es sends in
      let below : Protocol.run crates es (start out.ctx) ≡ some w.system =
        sym (run-systems crates loggable build es out plain new suits) ∙ ap systems ran in
      let ready : has_logcat build ≡ true → All Sendable w.system.queued × (out.buffer ≡ []) =
        λ on. (run-queued crates out.ctx es w.system (sends on) below, clear on) in
      EndsBy-keeps (perform crates loggable build) (AllTold crates loggable build n k out w)
        (AllSent n k out w) (λ _. Unit) (λ e s t own went i. tt)
        (λ v all i. record {
          done = all.done;
          pieces = all.pieces;
          cut = all.cut;
          sent =
              pieces-sent laws n out w.system.queued all.pieces v.android_log fine healthy.limit
                ready all.cut (ap (λ (r : List Ended × List ℕ). r.0) all.told.android);
        })
        w tt
        (run-AllTold crates loggable build laws out es w plain new healthy unused fair suits ran)
