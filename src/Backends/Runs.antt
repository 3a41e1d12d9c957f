-- ===== src/Backends/Runs.antt =====
-- The schedules of paperlog.Protocol over the features of a build that has files: what the backends
-- write to stands beside the system, and a step of the logging thread is that of the build.
-- No build with stdout or tracing compiles (`compiles` of Backends): for these the source is read as
-- if the calls of `log_thread` found their modules.
use paperlog.Base.{
  Bool, false, not, ◌&&◌, ◌++◌, ◌==◌, if◌then◌else◌, Text, List, [], ◌∷◌, ℕ, Option, none, some,
}
use paperlog.TracingLogger.{Emitted}
use paperlog.Logcat
use paperlog.Logcat.{Ended}
use paperlog.LogThread.{Crates, Thread, takes}
use paperlog.Backends.{Build, Outputs}
use paperlog.Backends.Thread.{thread_step}
use paperlog.Protocol
use paperlog.Protocol.{System, Event, advance, start, needs_write, readers}

pub record World : Type 0 where
  pub system : System
  -- what the logging thread's backends write to, as in `Outputs`
  pub android_log : List Ended
  pub buffer : List ℕ
  pub printed : Text
  pub events : List Emitted

abbrev pub outputs : World → Outputs
outputs w = record {
  ctx = w.system.ctx;
  android_log = w.android_log;
  buffer = w.buffer;
  printed = w.printed;
  events = w.events;
}

-- The state when `init` returns.
abbrev pub started : Outputs → World
started out = record {
  system = start out.ctx;
  android_log = out.android_log;
  buffer = out.buffer;
  printed = out.printed;
  events = out.events;
}

unfoldable pub on_system : World → Option System → Option World
on_system w none = none
on_system w (some s) = some (record w { system = s })

unfoldable pub moved : World → Option (Outputs × Thread) → Option World
moved w none = none
moved w (some (out, t)) = some (record {
  system = record w.system {
    ctx = out.ctx;
    thread = t;
    requested = false;
    took = w.system.took ++ takes w.system.thread.pc w.system.ctx;
  };
  android_log = out.android_log;
  buffer = out.buffer;
  printed = out.printed;
  events = out.events;
})

module _ (crates : Crates) (loggable : Logcat.Priority → List ℕ → Bool) (build : Build) where
  -- One event; `none` where it cannot happen.
  unfoldable pub perform : Event → World → Option World
  perform advance w =
      if needs_write w.system.thread.pc && not (w.system.requested && readers w.system == 0)
      then none
      else moved w (thread_step crates loggable build (outputs w) w.system.thread)
  perform e w = on_system w (Protocol.perform crates e w.system)

  unfoldable pub run : List Event → World → Option World
  run [] w = some w
  run (e ∷ es) w = elim (perform e w) [ none ↦ none | some v ↦ run es v ]
