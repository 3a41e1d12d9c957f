-- ===== src/Backends/Complete.antt =====
-- What becomes of every entry in a healthy logger, for all the backends of a build with files and sinks.
-- No build with stdout or tracing compiles (`compiles` of Backends): for these the source is read as
-- if the calls of `log_thread` found their modules.
use paperlog.Base.{
  ◌≡◌, refl, sym, ap, ◌∙◌, subst, arith, List, [], ◌∷◌, ◌++◌, length, ℕ, some, Option-cases, inl,
  inr, All, All-append, All-mono, Bool,
}
use paperlog.LogData.{LogData}
use paperlog.Chunks.{IsChunks, split_str_into_chunks}
use paperlog.Logcat
use paperlog.LogThread.{Crates}
use paperlog.LogThread.Health.{Healthy}
use paperlog.LogThread.Handed.{Handed}
use paperlog.LogThread.Serves.{IsAlive}
use paperlog.Protocol
use paperlog.Protocol.{System, Event, start}
use paperlog.Protocol.Clients.{Fair, Waits}
use paperlog.Protocol.Complete.{Done, run-Done, Own-Fair}
use paperlog.Protocol.Delivery.{Own, EndsBy, EndsBy-keeps}
use paperlog.Backends.Lifts.{Own-PushesOnly, lifts}
use paperlog.Protocol.Entries.{PushesOnly}
use paperlog.Protocol.Handing.{Unused}
use paperlog.Protocol.Quiet.{run-Heard, quiet-took}
use paperlog.Protocol.Record.{IsNew, run-Recorded}
use paperlog.Protocol.Service.{Fair-Waits}
use paperlog.Backends.{Build, Outputs}
use paperlog.Backends.Printed.{run-Telling}
use paperlog.Backends.Runs.{World, outputs, started, perform, run}
use paperlog.Backends.Schedules.{systems, run-systems, start-Suited, run-Suited}
use paperlog.Backends.Shown.{Told}
use paperlog.Backends.Simulation.{FilesAndSinks}
use paperlog.Backends.Calls.{Suits}

module _ (crates : Crates) (loggable : Logcat.Priority → List ℕ → Bool) (build : Build) where
  open crates use {chunks, format_time}

  first_run :
      (e : Event) (es : List Event) (a v : World)
      → perform crates loggable build e a ≡ some v
      → run crates loggable build (e ∷ es) a ≡ run crates loggable build es v
  unfolding run
  first_run e es a v moved = rw (moved, run) refl

  -- One schedule after the other.
  both_runs :
      (es fs : List Event) (a b : World)
      → run crates loggable build es a ≡ some b
      → run crates loggable build (es ++ fs) a ≡ run crates loggable build fs b
  unfolding run
  both_runs [] fs a b ran = ground (arith, ran)
  both_runs (e ∷ es) fs a b ran = elim (Option-cases (perform crates loggable build e a)) [
    | inl stuck ↦ absurd (ground (arith, stuck, ran))
    | inr (v, moved) ↦ rw (moved, run) (both_runs es fs v b (sym (first_run e es a v moved) ∙ ran))
  ]

  -- The logger is done with the entries of `w`, and all of them were told.
  pub record AllTold (n k : ℕ) (out : Outputs) (w v : World) : Type 0 where
    pub done : Done crates n k w.system v.system
    pub pieces : List LogData
    pub cut : split_str_into_chunks chunks w.system.queued n ≡ some pieces
    pub told : Told format_time loggable build pieces out (outputs v)

  -- The logger is quiet behind the whole schedule: it has handed out the pieces of all entries.
  quiet-AllTold :
      (out : Outputs) (gs : List Event) (w v : World)
      → FilesAndSinks build
      → IsNew out.ctx
      → All (PushesOnly (Suits build)) gs
      → All (λ e. ¬ Waits e) gs
      → Protocol.run crates gs (start out.ctx) ≡ some v.system
      → run crates loggable build gs (started out) ≡ some v
      → Done crates out.ctx.config.max_string_len (length out.ctx.sinks) w.system v.system
      → AllTold out.ctx.config.max_string_len (length out.ctx.sinks) out w v
  quiet-AllTold out gs w v plain new suits calm ran ran' done =
      let n = out.ctx.config.max_string_len in
      let telling =
        run-Telling crates loggable build out gs v plain new suits ran'
          (subst IsAlive (sym done.quiet.sleeps) tt) in
      let handed =
        subst (λ pc. Handed crates n pc v.system.took telling.got) done.quiet.sleeps
          telling.handed in
      let all =
        sym (
          quiet-took crates n v.system (run-Recorded crates out.ctx gs v.system new ran)
            (run-Heard crates out.ctx gs v.system new calm ran) done.quiet)
        ∙ done.queued in
      record {
        done = done;
        pieces = telling.got;
        cut = subst (λ q. split_str_into_chunks chunks q n ≡ some telling.got) all handed;
        told = telling.told;
      }

  -- The schedules of such events behind `w`.
  Behind : World → World → Type 0
  Behind w v = (fs : List Event) × All Own fs × (run crates loggable build fs w ≡ some v)

  Own-Behind :
      (w : World) (e : Event) (a b : World)
      → Own e
      → perform crates loggable build e a ≡ some b
      → Behind w a
      → Behind w b
  unfolding Behind run
  Own-Behind w e a b own went (fs, all, ran) = (
    fs ++ e ∷ [],
    All-append Own fs (e ∷ []) all (own, tt),
    both_runs fs (e ∷ []) w a ran ∙ first_run e [] a b went,
  )

  -- Every entry reaches every backend, in a build with files and sinks: from a new, healthy logger whose
  -- sinks have had nothing, after any schedule of fair events, if no client makes a new call, the calls
  -- under way and the thread always come to an end after finitely many events, in whatever order these
  -- happen, and as long as they have not, one can happen. At the end the logger is quiet, the global file
  -- holds what all the entries queued print, all of it flushed, each sink of the start has had their
  -- pieces, standard output, if the build prints, the line of each piece, the tracing crate, if the build
  -- has it, the events of the pieces, and Android's log, if the build has it, their calls, once each and
  -- in order. In a build with Android's log this is for schedules that queue only entries whose tag has
  -- no more bytes than line, column and function in their message's frame take up, plus seven.
  pub run-AllTold :
      (laws : IsChunks chunks) (out : Outputs) (es : List Event) (w : World)
      → FilesAndSinks build
      → IsNew out.ctx
      → Healthy out.ctx
      → All Unused out.ctx.sinks
      → All Fair es
      → All (PushesOnly (Suits build)) es
      → run crates loggable build es (started out) ≡ some w
      → EndsBy
          (perform crates loggable build)
          (AllTold out.ctx.config.max_string_len (length out.ctx.sinks) out w)
          w
  unfolding systems Behind run
  run-AllTold laws out es w plain new healthy unused fair suits ran =
      let n = out.ctx.config.max_string_len in
      let k = length out.ctx.sinks in
      let below : Protocol.run crates es (start out.ctx) ≡ some w.system =
        sym (run-systems crates loggable build es out plain new suits) ∙ ap systems ran in
      EndsBy-keeps (perform crates loggable build) (λ v. Done crates n k w.system v.system)
        (AllTold n k out w) (Behind w) (Own-Behind w)
        (λ v done (fs, own, went).
          let suits' =
            All-append (PushesOnly (Suits build)) es fs suits
              (All-mono (Own-PushesOnly build) fs own) in
          let calm =
            All-append (λ e. ¬ Waits e) es fs (All-mono Fair-Waits es fair)
              (All-mono (λ e o. Fair-Waits e (Own-Fair e o)) fs own) in
          let ran' : run crates loggable build (es ++ fs) (started out) ≡ some v =
            both_runs es fs (started out) w ran ∙ went in
          quiet-AllTold out (es ++ fs) w v plain new suits' calm
            (sym (run-systems crates loggable build (es ++ fs) out plain new suits')
              ∙ ap systems ran')
            ran' done)
        w ([], tt, refl)
        (lifts crates loggable build (Done crates n k w.system) plain
          (run-Done crates laws out.ctx es w.system new healthy unused fair below) w refl
          (run-Suited crates loggable build es (start out.ctx) w.system suits
            (start-Suited crates loggable build out new) below))
