-- ===== src/Backends/Printed.antt =====
-- What has been shown along the schedules of a build with files and sinks.
-- No build with stdout or tracing compiles (`compiles` of Backends): for these the source is read as
-- if the calls of `log_thread` found their modules.
use paperlog.Base.{
  ◌≡◌, refl, sym, ap, ◌∙◌, subst, Bool, not, ◌&&◌, ◌==◌, List, [], ◌∷◌, ◌++◌, ℕ, Option, none, some,
  OnSome, All, OnSome-some, Option-cases, inl, inr, if-both,
}
use paperlog.LogData.{LogData}
use paperlog.Logcat
use paperlog.Chunks.{split_str_into_chunks}
use paperlog.LogThread
use paperlog.LogThread.{
  Crates, Pc, top, taken, writing, handing, checking, flushing, deciding, waiting, failed,
  reporting, stopped, panicked, Thread, adds, takes, start_thread,
}
use paperlog.LogThread.Serves.{IsAlive}
use paperlog.LogThread.Entries.{InHand}
use paperlog.LogThread.Handed.{Handed, PassesBy, thread_step-Passes}
use paperlog.LogThread.Sinks.{AllServed, thread_step-AllServed}
use paperlog.Protocol
use paperlog.Protocol.{
  System, Event, push, signals, advance, request, begin_wait, end_wait, begin_timed, end_timed,
  time_out, adds_context, removes_context, adds_sink, start, needs_write, readers,
}
use paperlog.Protocol.Entries.{PushesOnly}
use paperlog.Protocol.Moves.{Move, perform-Move}
use paperlog.Protocol.Record.{Recorded, Move-Recorded, IsNew, start-Recorded}
use paperlog.Protocol.Still.{Same, perform-Same}
use paperlog.Backends.{Build, Outputs}
use paperlog.Backends.Simulation.{FilesAndSinks}
use paperlog.Backends.Calls.{Suits, calls}
use paperlog.Backends.Schedules.{systems, perform-systems, Suited, start-Suited, perform-Suited}
use paperlog.Backends.Steps.{shared, thread_step-shared}
use paperlog.Backends.Shown.{Told, nothing_told, also_told}
use paperlog.Backends.Tells.{Tells, thread_step-Tells}
use paperlog.Backends.Thread.{thread_step}
use paperlog.Backends.Runs.{World, outputs, started, on_system, moved, perform, run}

module _ (crates : Crates) (loggable : Logcat.Priority → List ℕ → Bool) (build : Build) (n : ℕ)
    (first : Outputs) where
  open crates use {format_time}

  -- As long as the thread is alive: there are the entries that were handed out, and exactly these were
  -- told.
  pub record Telling (w : World) : Type 0 where
    pub got : List LogData
    pub handed : Handed crates n w.system.thread.pc w.system.took got
    pub told : Told format_time loggable build got first (outputs w)

  abbrev AliveTelling : World → Type 0
  AliveTelling w = IsAlive w.system.thread.pc → Telling w

  moved-Telling :
      (w : World) (r : Option (Outputs × Thread))
      → thread_step crates loggable build (outputs w) w.system.thread ≡ r
      → FilesAndSinks build
      → InHand (Suits build) w.system.thread.pc
      → w.system.ctx.config.max_string_len ≡ n
      → AliveTelling w
      → OnSome AliveTelling (moved w r)
  unfolding moved shared
  moved-Telling w none stepped plain suited limit h = tt
  moved-Telling w (some (out, t)) stepped plain suited limit h = λ alive.
      let pc = w.system.thread.pc in
      let ctx = w.system.ctx in
      let same : LogThread.thread_step crates ctx w.system.thread ≡ some (out.ctx, t) =
        sym (thread_step-shared crates loggable build (outputs w) w.system.thread plain suited)
        ∙ ap shared stepped in
      let was =
        (OnSome-some (AllServed crates pc ctx) (LogThread.thread_step crates ctx w.system.thread)
          (thread_step-AllServed crates ctx w.system.thread) same alive).was in
      let before = h was in
      record {
        got = before.got ++ adds pc;
        handed =
            OnSome-some (PassesBy crates n (w.system.took ++ takes pc ctx) (before.got ++ adds pc))
              (LogThread.thread_step crates ctx w.system.thread)
              (thread_step-Passes crates n w.system.took before.got ctx w.system.thread limit
                before.handed)
              same;
        told =
            also_told format_time loggable build before.got (adds pc) first (outputs w) out
              before.told
              (OnSome-some (Tells crates loggable build (outputs w) (adds pc))
                (thread_step crates loggable build (outputs w) w.system.thread)
                (thread_step-Tells crates loggable build (outputs w) w.system.thread suited) stepped
                alive);
      }

  client-Telling :
      (w : World) (r : Option System)
      → OnSome (Same w.system) r
      → AliveTelling w
      → OnSome AliveTelling (on_system w r)
  unfolding on_system
  client-Telling w none same h = tt
  client-Telling w (some s) (thread, took) h = λ alive.
      let before = h (subst (λ (t : Thread). IsAlive t.pc) thread alive) in
      record {
        got = before.got;
        handed = rw (thread, took) before.handed;
        told = record {
          android = before.told.android;
          printed = before.told.printed;
          events = before.told.events;
        };
      }

  perform-Telling :
      (e : Event) (w : World)
      → FilesAndSinks build
      → InHand (Suits build) w.system.thread.pc
      → w.system.ctx.config.max_string_len ≡ n
      → AliveTelling w
      → OnSome AliveTelling (perform crates loggable build e w)
  unfolding perform
  perform-Telling advance w plain suited limit h =
      if-both (OnSome AliveTelling)
        (needs_write w.system.thread.pc && not (w.system.requested && readers w.system == 0)) none
        (moved w (thread_step crates loggable build (outputs w) w.system.thread)) tt
        (moved-Telling w (thread_step crates loggable build (outputs w) w.system.thread) refl plain
          suited limit h)
  perform-Telling e w plain suited limit h =
      client-Telling w (Protocol.perform crates e w.system) (perform-Same crates e w.system tt) h

  run-OnSome :
      (es : List Event) (w : World)
      → FilesAndSinks build
      → All (PushesOnly (Suits build)) es
      → Suited crates loggable build w.system
      → Recorded crates n w.system
      → AliveTelling w
      → OnSome AliveTelling (run crates loggable build es w)
  unfolding run systems
  run-OnSome [] w plain a suited r h = h
  run-OnSome (e ∷ es) w plain (a, later) suited r h =
      elim (Option-cases (perform crates loggable build e w)) [
        | inl stuck ↦ rw (stuck, run) tt
        | inr (v, went) ↦
            let m =
              OnSome-some (Move crates e w.system) (Protocol.perform crates e w.system)
                (perform-Move crates e w.system)
                (sym (perform-systems crates loggable build e w plain suited.1.hand)
                  ∙ ap systems went) in
            let told =
              OnSome-some AliveTelling (perform crates loggable build e w)
                (perform-Telling e w plain suited.1.hand r.limit h) went in
            rw (went, run)
              (run-OnSome es v plain later
                (perform-Suited crates loggable build e w v plain a suited went)
                (Move-Recorded crates n m r) told)
      ]

module _ (crates : Crates) (loggable : Logcat.Priority → List ℕ → Bool) (build : Build) where
  start-Telling :
      (out : Outputs)
      → AliveTelling crates loggable build out.ctx.config.max_string_len out (started out)
  unfolding start start_thread split_str_into_chunks calls
  start-Telling out = λ alive. record {
    got = [];
    handed = refl;
    told = nothing_told crates.format_time loggable build out out refl refl refl;
  }

  -- In every state that a schedule of a build with files and sinks reaches from a new logger, as long
  -- as the thread has not failed or panicked: standard output, if the build prints, has had the lines
  -- of exactly the pieces of the entries taken, in order, but for those in hand (`Handed` says it for
  -- each place of the thread), the tracing crate, if the build has it, has had their events, and
  -- Android's log, if the build has it, the calls they make, one each. Writes and sinks may fail, and
  -- clients do what they like, except that in a build with Android's log they queue only entries whose
  -- tag has no more bytes than line, column and function in their message's frame take up, plus seven.
  pub run-Telling :
      (out : Outputs) (es : List Event) (w : World)
      → FilesAndSinks build
      → IsNew out.ctx
      → All (PushesOnly (Suits build)) es
      → run crates loggable build es (started out) ≡ some w
      → IsAlive w.system.thread.pc
      → Telling crates loggable build out.ctx.config.max_string_len out w
  run-Telling out es w plain new a ran =
      let n = out.ctx.config.max_string_len in
      OnSome-some (AliveTelling crates loggable build n out)
        (run crates loggable build es (started out))
        (run-OnSome crates loggable build n out es (started out) plain a
          (start-Suited crates loggable build out new) (start-Recorded crates out.ctx new)
          (start-Telling out))
        ran
