-- ===== src/Backends/Schedules.antt =====
-- The schedules of a build with files and sinks beside those of paperlog.Protocol.
use paperlog.Base.{
  ◌≡◌, refl, ap, ◌∙◌, arith, Bool, true, false, not, ◌&&◌, ◌==◌, if◌then◌else◌, List, [], ◌∷◌, ℕ,
  Option, none, some, All, OnSome-some, sym,
}
use paperlog.LoggerThreadCtx.{LoggerThreadCtx}
use paperlog.Logcat
use paperlog.LogThread
use paperlog.LogThread.{
  Crates, Pc, top, taken, writing, handing, checking, flushing, deciding, waiting, failed,
  reporting, stopped, panicked, Thread,
}
use paperlog.Backends.{Build, Outputs}
use paperlog.Backends.Simulation.{FilesAndSinks}
use paperlog.Backends.Calls.{Suits, Suits-with_message}
use paperlog.Backends.Thread.{thread_step}
use paperlog.Backends.Runs.{World, outputs, started, on_system, moved, perform, run}
use paperlog.LogThread.Entries.{InHand}
use paperlog.Protocol
use paperlog.Protocol.{System, Event, advance, needs_write, readers, start}
use paperlog.Protocol.Entries.{PushesOnly, Holds, Move-Holds}
use paperlog.Protocol.Moves.{Move, perform-Move}
use paperlog.Protocol.Order.{InOrder, Move-InOrder, start-InOrder}
use paperlog.Protocol.Record.{IsNew}
use paperlog.Protocol.Schedules.{run-keeps}
use paperlog.Backends.Steps.{shared, thread_step-shared}

-- The system, without what else is written.
unfoldable pub systems : Option World → Option System
systems none = none
systems (some w) = some w.system

module _ (crates : Crates) (loggable : Logcat.Priority → List ℕ → Bool) (build : Build) where
  on_system-systems : (w : World) (r : Option System) → systems (on_system w r) ≡ r
  unfolding systems on_system
  on_system-systems w none = refl
  on_system-systems w (some s) = refl

  moved-systems :
      (w : World) (r : Option (Outputs × Thread)) (q : Option (LoggerThreadCtx × Thread))
      → shared r ≡ q
      → systems (moved w r) ≡ Protocol.moved crates w.system q
  unfolding systems moved Protocol.moved shared
  moved-systems w none none same = refl
  moved-systems w none (some q) same = ground arith
  moved-systems w (some r) none same = ground arith
  moved-systems w (some (out, t)) (some (ctx, u)) same = ground arith

  held-systems :
      (b : Bool) (m : Option World)
      → systems (if b then none else m) ≡ (if b then none else systems m)
  unfolding systems
  held-systems true m = refl
  held-systems false m = refl

  pub perform-systems :
      (e : Event) (w : World)
      → FilesAndSinks build
      → InHand (Suits build) w.system.thread.pc
      → systems (perform crates loggable build e w) ≡ Protocol.perform crates e w.system
  unfolding perform Protocol.perform Protocol.thread_moves
  perform-systems advance w plain suited =
      let held =
        needs_write w.system.thread.pc && not (w.system.requested && readers w.system == 0) in
      held-systems held (moved w (thread_step crates loggable build (outputs w) w.system.thread))
      ∙ ap (λ r. if held then none else r)
          (moved-systems w (thread_step crates loggable build (outputs w) w.system.thread)
            (LogThread.thread_step crates w.system.ctx w.system.thread)
            (thread_step-shared crates loggable build (outputs w) w.system.thread plain suited))
  perform-systems e w plain suited = on_system-systems w (Protocol.perform crates e w.system)

  -- What the entries that a schedule queues leave in the logger.
  abbrev pub Suited : System → Type 0
  Suited s = InOrder s × Holds (Suits build) s

  pub start-Suited : (out : Outputs) → IsNew out.ctx → Suited (start out.ctx)
  unfolding start LogThread.start_thread
  start-Suited out new =
      (start-InOrder crates out.ctx new.queue, record { queue = rw (new.queue) tt; hand = tt })

  Move-Suited :
      {e : Event} {s t : System}
      → PushesOnly (Suits build) e
      → Move crates e s t
      → Suited s
      → Suited t
  Move-Suited a m (o, h) =
      (Move-InOrder crates m o, Move-Holds (Suits build) crates (Suits-with_message build) a m o h)

  pub run-Suited :
      (es : List Event) (s t : System)
      → All (PushesOnly (Suits build)) es
      → Suited s
      → Protocol.run crates es s ≡ some t
      → Suited t
  run-Suited es s t =
      run-keeps crates Suited (PushesOnly (Suits build)) (λ e s t. Move-Suited) es s t

  pub perform-Suited :
      (e : Event) (w v : World)
      → FilesAndSinks build
      → PushesOnly (Suits build) e
      → Suited w.system
      → perform crates loggable build e w ≡ some v
      → Suited v.system
  unfolding systems
  perform-Suited e w v plain a suited went =
      let below : Protocol.perform crates e w.system ≡ some v.system =
        sym (perform-systems e w plain suited.1.hand) ∙ ap systems went in
      Move-Suited a
        (OnSome-some (Move crates e w.system) (Protocol.perform crates e w.system)
          (perform-Move crates e w.system) below)
        suited

  after-systems :
      (es : List Event) (m : Option World) (r : Option System)
      → ((v : World)
          → m ≡ some v
          → systems (run crates loggable build es v) ≡ Protocol.run crates es v.system)
      → systems m ≡ r
      → systems (elim m [ none ↦ none | some v ↦ run crates loggable build es v ])
        ≡ (elim r [ none ↦ none | some v ↦ Protocol.run crates es v ])
  unfolding systems
  after-systems es none none later same = refl
  after-systems es none (some s) later same = ground arith
  after-systems es (some w) none later same = ground arith
  after-systems es (some w) (some s) later same =
      let equal : w.system ≡ s = ground arith in later w refl ∙ ap (Protocol.run crates es) equal

  goes_on-systems :
      (es : List Event) (w : World)
      → FilesAndSinks build
      → All (PushesOnly (Suits build)) es
      → Suited w.system
      → systems (run crates loggable build es w) ≡ Protocol.run crates es w.system
  unfolding run Protocol.run systems
  goes_on-systems [] w plain a suited = refl
  goes_on-systems (e ∷ es) w plain (a, later) suited =
      after-systems es (perform crates loggable build e w) (Protocol.perform crates e w.system)
        (λ v went. goes_on-systems es v plain later (perform-Suited e w v plain a suited went))
        (perform-systems e w plain suited.1.hand)

  -- From a new logger, a build with files and sinks, whatever else it has, runs the same schedules as
  -- the build with files and sinks alone, and what they do to the shared state, the thread, its clients
  -- and the histories is the same. In a build with Android's log this is for schedules that queue only
  -- entries whose tag has no more bytes than line, column and function in their message's frame take up,
  -- plus seven.
  pub run-systems :
      (es : List Event) (out : Outputs)
      → FilesAndSinks build
      → IsNew out.ctx
      → All (PushesOnly (Suits build)) es
      → systems (run crates loggable build es (started out))
        ≡ Protocol.run crates es (start out.ctx)
  run-systems es out plain new a = goes_on-systems es (started out) plain a (start-Suited out new)
