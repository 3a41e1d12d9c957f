-- ===== src/Tests/Builds.antt =====
-- The default features of the logger, for Android and for another target, on concrete entries.
use paperlog.Base.{
  ◌≡◌, ◌<◌, refl, sym, ap, ◌∙◌, codes, replicate, show_u32, length, List, [], ◌∷◌, some, none, Bool,
  true, false, arith, ℕ, All, text_eq, unwrap_or,
}
use paperlog.TextMap.{get, insert}
use paperlog.LogData.{LogData, write_to_io, write_compact_to_io}
use paperlog.FileLogger.Round.{AllSound}
use paperlog.LogThread.{Thread, start_thread, writing, handing, panicked}
use paperlog.LogThread
use paperlog.Io.{write_text}
use paperlog.FileLogger
use paperlog.SinkLogger
use paperlog.VecPool.{take_vec, with_initial_amount}
use paperlog.Chunks.{split_lines, chunk_lines, split_log, split_str_into_chunks}
use paperlog.LoggerThreadCtx.{push_logs, signal_log}
use paperlog.Protocol
use paperlog.Protocol.{start, needs_write, Event, push, signals, advance, request}
use paperlog.Logcat
use paperlog.Logcat.Laws.{room}
use paperlog.Backends.{compiles, Build, Outputs, goes, panics, do_log, hand_one}
use paperlog.Backends.Panics.{logcat_panics_first}
use paperlog.Backends.Reached.{Reached, do_log-Reached}
use paperlog.Backends.Thread.{on_ctx, after_hand, step_at, thread_step}
use paperlog.LogThread.Serves.{IsAlive}
use paperlog.Backends.Schedules.{systems, run-systems}
use paperlog.Backends.Android.{LogHas, run-LogHas}
use paperlog.Backends.Runs.{World, started, on_system, moved, perform, run}
use paperlog.Protocol.Clients.{Fair}
use paperlog.Protocol.Delivery.{EndsBy}
use paperlog.Protocol.Entries.{PushesOnly}
use paperlog.Protocol.Bounded.{SinksBounded, run-SinksBounded}
use paperlog.Protocol.Record.{IsNew}
use paperlog.Backends.Calls.{Suits}
use paperlog.Backends.Compiled.{AllSent, run-AllSent}
use paperlog.Logcat.Sends.{Sendable}
use paperlog.LoggerThreadCtx.{LoggerThreadCtx}
use paperlog.Tests.Data.{ctx-Healthy, chunks-IsChunks, crates, plain, tagged_a, ctx}

abbrev outputs : Outputs
outputs = record { ctx = ctx; android_log = []; buffer = []; printed = codes ">"; events = [] }

abbrev desktop : Build
desktop = record {
  android = false;
  logcat = true;
  android_api_30 = false;
  file = true;
  stdout = false;
  sinks = true;
  tracing = false;
}

abbrev quest : Build
quest = record desktop { android = true }

abbrev loggable : Logcat.Priority → List ℕ → Bool
loggable priority tag = true

outputs-AllSound : AllSound ctx
unfolding get
outputs-AllSound = record { global = refl; contexts = λ k f e. ground arith }

tagged_a-Sendable : Sendable tagged_a
unfolding Logcat.tag_bytes Logcat.message_str Logcat.utf8 show_u32
tagged_a-Sendable = record { no_nul = record { tag = refl; message = refl }; fits = omega arith }

plain-Sendable : Sendable plain
unfolding Logcat.tag_bytes Logcat.message_str Logcat.utf8 show_u32
plain-Sendable = record { no_nul = record { tag = refl; message = refl }; fits = omega arith }

quest-compiles : compiles quest ≡ true
unfolding compiles
quest-compiles = refl

do_log-Reached_example :
    (after : Outputs) × (do_log crates.format_time loggable quest tagged_a outputs ≡ goes after)
    × Reached crates.format_time loggable quest tagged_a outputs after
do_log-Reached_example =
    do_log-Reached crates.format_time loggable quest tagged_a outputs quest-compiles
      (λ on. (tagged_a-Sendable, refl)) outputs-AllSound (refl, tt)

-- A tag of sixty characters.
abbrev long_tagged : LogData
long_tagged = record plain { tag = some (replicate 60 b'T') }

abbrev long_batch : List LogData
long_batch = long_tagged ∷ tagged_a ∷ []

abbrev at_long : Thread
at_long = record start_thread { pc = writing long_batch }

abbrev long_written : LoggerThreadCtx
long_written = (FileLogger.do_log_batch crates.format_time long_batch ctx).0

long_written_lem : FileLogger.do_log_batch crates.format_time long_batch ctx ≡ (long_written, none)
unfolding FileLogger.do_log_batch FileLogger.batch_round write_to_io write_compact_to_io write_text
    get insert text_eq
long_written_lem = refl

too_long : room long_tagged < length (Logcat.tag_bytes long_tagged)
unfolding Logcat.tag_bytes Logcat.utf8 show_u32
too_long = omega arith

logcat_panics_first_example :
    (do_log crates.format_time loggable quest long_tagged outputs
      ≡ panics (record outputs { buffer = Logcat.fill [] long_tagged }))
    × (thread_step crates loggable quest outputs at_long
        ≡ some (record outputs { ctx = long_written }, record at_long { pc = handing long_batch }))
    × (thread_step crates loggable quest
          (record outputs { ctx = long_written })
          (record at_long { pc = handing long_batch })
        ≡ some (
          record outputs { ctx = long_written; buffer = Logcat.fill [] long_tagged },
          record at_long { pc = panicked },
        ))
    × (long_written.sinks ≡ ctx.sinks)
logcat_panics_first_example =
    logcat_panics_first crates loggable quest long_tagged (tagged_a ∷ []) outputs at_long
      long_written refl refl refl refl too_long refl long_written_lem

-- Two entries are queued, written, and one of them handed to the other backends.
abbrev halfway : List Event
halfway =
    push (plain ∷ tagged_a ∷ []) ∷ advance ∷ advance ∷ signals ∷ request ∷ advance ∷ advance ∷ []

abbrev reached : World
reached = unwrap_or (run crates loggable desktop halfway (started outputs)) (started outputs)

reached_lem :
    (run crates loggable desktop halfway (started outputs) ≡ some reached)
    × IsAlive reached.system.thread.pc
unfolding run perform thread_step hand_one on_system moved step_at on_ctx after_hand
    Protocol.perform LogThread.thread_step start_thread start push_logs split_str_into_chunks
    split_log chunk_lines split_lines FileLogger.do_log_batch FileLogger.batch_round write_to_io
    write_compact_to_io write_text signal_log get insert text_eq SinkLogger.do_log take_vec
    with_initial_amount needs_write
reached_lem = (refl, tt)

outputs-IsNew : IsNew ctx
outputs-IsNew = record { queue = refl; file = refl }

-- The tags of the two entries have room in every build.
halfway-Suits : (build : Build) → All (PushesOnly (Suits build)) halfway
unfolding Logcat.tag_bytes Logcat.utf8
halfway-Suits build =
    ((λ on. omega arith, (λ on. omega arith, tt)), (tt, (tt, (tt, (tt, (tt, (tt, tt)))))))

-- The same on a headset.
abbrev reached_android : World
reached_android = unwrap_or (run crates loggable quest halfway (started outputs)) (started outputs)

reached_android_lem :
    (run crates loggable quest halfway (started outputs) ≡ some reached_android)
    × IsAlive reached_android.system.thread.pc
    × (length reached_android.android_log ≡ 1)
unfolding run perform thread_step hand_one on_system moved step_at on_ctx after_hand
    Protocol.perform LogThread.thread_step start_thread start push_logs split_str_into_chunks
    split_log chunk_lines split_lines FileLogger.do_log_batch FileLogger.batch_round write_to_io
    write_compact_to_io write_text signal_log get insert text_eq SinkLogger.do_log take_vec
    with_initial_amount needs_write Logcat.do_log Logcat.tag_bytes Logcat.utf8 Logcat.fill show_u32
reached_android_lem = (refl, tt, refl)

halfway-Sendable : All (PushesOnly Sendable) halfway
halfway-Sendable =
    ((plain-Sendable, (tagged_a-Sendable, tt)), (tt, (tt, (tt, (tt, (tt, (tt, tt)))))))

run-LogHas_example : LogHas crates loggable quest (λ on p tag. refl) outputs reached_android
run-LogHas_example =
    run-LogHas crates loggable quest (λ on p tag. refl) chunks-IsChunks outputs halfway
      reached_android (refl, refl) refl (omega arith) outputs-IsNew refl halfway-Sendable
      reached_android_lem.0 reached_android_lem.1

run-systems_example :
    systems (run crates loggable quest halfway (started outputs))
    ≡ Protocol.run crates halfway (start ctx)
run-systems_example =
    run-systems crates loggable quest halfway outputs (refl, refl) outputs-IsNew
      (halfway-Suits quest)

halfway_lem : Protocol.run crates halfway (start ctx) ≡ some reached.system
unfolding systems
halfway_lem =
    sym (
      run-systems crates loggable desktop halfway outputs (refl, refl) outputs-IsNew
        (halfway-Suits desktop))
    ∙ ap systems reached_lem.0

run-SinksBounded_example : SinksBounded crates 1024 1 reached.system
run-SinksBounded_example =
    run-SinksBounded crates chunks-IsChunks ctx halfway reached.system (omega arith) outputs-IsNew
      (refl, tt) halfway_lem reached_lem.1

halfway-Fair : All Fair halfway
halfway-Fair = ground arith

run-AllSent_example :
    EndsBy
      (perform crates loggable quest)
      (AllSent crates loggable quest 1024 1 outputs reached_android)
      reached_android
run-AllSent_example =
    run-AllSent crates loggable quest chunks-IsChunks outputs halfway reached_android quest-compiles
      (refl, refl) outputs-IsNew ctx-Healthy (refl, tt) halfway-Fair (λ on. halfway-Sendable)
      (λ on. refl) reached_android_lem.0
