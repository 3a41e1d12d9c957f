-- ===== src/Tests/Runs.antt =====
-- Schedules of the logger, and what its theorems say of them.
use paperlog.Base.{
  arith, ◌<◌, ◌≡◌, refl, ◌++◌, List, [], ◌∷◌, none, some, All, text_eq, codes, true, false, Text,
  Bool-cases, inl, inr, sym, text_eq_iff, ◌⊎◌,
}
use paperlog.Io.{write_text, flush_file, new_file}
use paperlog.TextMap.{get, insert}
use paperlog.VecPool.{take_vec, drop_guard, with_initial_amount}
use paperlog.Chunks.{split_lines, chunk_lines, split_log, split_str_into_chunks}
use paperlog.FileLogger
use paperlog.SinkLogger
use paperlog.LogData.{LogData, write_to_io, write_compact_to_io}
use paperlog.LoggerThreadCtx.{LoggerThreadCtx, push_logs, signal_log, flush, add_context}
use paperlog.LogThread.{waiting, thread_step, start_thread, end_round}
use paperlog.LogThread.Order.{HasCleanPool}
use paperlog.LogThread.Settles.{Settles, thread-Settles}
use paperlog.VecPool.Laws.{with_initial_amount-IsClean}
use paperlog.LogThread.Idle.{IsFlushed}
use paperlog.LogThread.Written.{Printed, Written}
use paperlog.Protocol.{
  System, Event, push, signals, advance, request, begin_wait, end_wait, perform, run, start,
  needs_write, adds_context,
}
use paperlog.Protocol.Clients.{Waits, Pushes}
use paperlog.Protocol.Record.{run-Written}
use paperlog.Protocol.Order.{queued-split}
use paperlog.Protocol.Quiet.{IsQuiet, quiet_complete}
use paperlog.Protocol.Faults.{StillQuiet, wait_for_flush_steals, wait_for_flush_deadlocks}
use paperlog.Protocol.Clients.{Fair}
use paperlog.Protocol.Contexts.{Apart, Spares}
use paperlog.ContextPath.{
  context_path, join, with_extension, has_parent, until_slash, file_stem, before_last_dot,
}
use paperlog.Protocol.Delivery.{Ends}
use paperlog.Protocol.Filing.{OwnFile, run-OwnFile}
use paperlog.Protocol.Handing.{SinksHad, run-SinksHad}
use paperlog.Protocol.Complete.{Done, run-Done}
use paperlog.Tests.Interface.{fs}
use paperlog.Tests.Data.{ctx-Healthy, chunks-IsChunks, crates, plain, tagged_a, ctx, after}

-- From the head of the loop to its wait, with nothing to do.
abbrev idle_round : List Event
idle_round = advance ∷ advance ∷ advance ∷ request ∷ advance ∷ advance ∷ []

-- A client queues two entries while the thread starts; the thread writes them, sees the signal,
-- looks again and sleeps.
abbrev whole : List Event
whole =
    push (plain ∷ tagged_a ∷ [])
    ∷ advance
    ∷ advance
    ∷ signals
    ∷ request
    ∷ advance
    ∷ advance
    ∷ advance
    ∷ advance
    ∷ advance
    ∷ advance
    ∷ request
    ∷ advance
    ∷ advance
    ∷ advance
    ∷ idle_round

-- How the schedule runs.
whole_lem : (run crates whole (start ctx) ≡ some (after whole)) × IsQuiet (after whole)
unfolding run start perform thread_step start_thread push_logs split_str_into_chunks split_log
    chunk_lines split_lines FileLogger.do_log_batch FileLogger.batch_round write_to_io
    write_compact_to_io write_text flush_file signal_log get insert text_eq SinkLogger.do_log flush
    end_round take_vec with_initial_amount drop_guard
whole_lem = (refl, record { sleeps = refl; unset = refl; none_coming = refl })

-- None of its events waits for a flush.
calm : All (λ e. ¬ Waits e) whole
calm = ground arith

quiet_complete_example :
    Printed crates 1024 (after whole).queued (after whole).ctx.global_file.text
    × IsFlushed (after whole).ctx
quiet_complete_example =
    quiet_complete crates ctx whole (after whole) (record { queue = refl; file = refl }) calm
      whole_lem.0 whole_lem.1

-- While the thread works, a client opens the context B.
abbrev with_b : List Event
with_b = adds_context fs (codes "B") ∷ whole

b-Apart : Apart ctx.config.context_log_path (codes "B") (codes "A")
unfolding context_path join with_extension has_parent until_slash file_stem before_last_dot
b-Apart = ((refl, λ e. ground (arith, e)), (refl, λ e. ground (arith, e)), λ e. ground (arith, e))

with_b-Spares : All (Spares ctx.config.context_log_path (codes "A")) with_b
with_b-Spares = (b-Apart, ground arith)

file_of_a : get (codes "A") ctx.context_map ≡ some (new_file [])
unfolding get text_eq
file_of_a = refl

with_b_lem : run crates with_b (start ctx) ≡ some (after with_b)
unfolding run start perform thread_step start_thread push_logs split_str_into_chunks split_log
    chunk_lines split_lines FileLogger.do_log_batch FileLogger.batch_round write_to_io
    write_compact_to_io write_text flush_file signal_log get insert text_eq SinkLogger.do_log flush
    end_round take_vec with_initial_amount drop_guard add_context context_path join with_extension
    has_parent until_slash file_stem before_last_dot
with_b_lem = refl

only_a :
    (tag : Text)
    → (get tag ctx.context_map ≡ none)
      ⊎ (tag ≡ codes "A")
      ⊎ Apart ctx.config.context_log_path tag (codes "A")
unfolding get
only_a tag = elim (Bool-cases (text_eq (codes "A") tag)) [
  | inl same ↦ inr (inl (sym ((text_eq_iff (codes "A") tag).0 same)))
  | inr other ↦ inl (rw other refl)
]

run-OwnFile_example : OwnFile crates ctx.config.context_log_path (codes "A") [] 1024 (after with_b)
run-OwnFile_example =
    run-OwnFile crates ctx (codes "A") (new_file []) with_b (after with_b)
      (record { queue = refl; file = refl }) file_of_a only_a with_b-Spares with_b_lem

-- Up to the write of a batch, of which the second half was queued while the first was taken.
abbrev begun : List Event
begun = push (plain ∷ tagged_a ∷ []) ∷ advance ∷ push (tagged_a ∷ []) ∷ advance ∷ signals ∷ []

begun_lem : run crates begun (start ctx) ≡ some (after begun)
unfolding run start perform thread_step start_thread push_logs split_str_into_chunks split_log
    chunk_lines split_lines FileLogger.do_log_batch FileLogger.batch_round write_to_io
    write_compact_to_io write_text flush_file signal_log get insert text_eq SinkLogger.do_log flush
    end_round take_vec with_initial_amount drop_guard
begun_lem = refl

run-Written_example :
    Written crates 1024
      (after begun).thread.pc
      (after begun).took
      (after begun).ctx.global_file.text
run-Written_example =
    run-Written crates ctx begun (after begun) (record { queue = refl; file = refl }) begun_lem

queued-split_example : (after begun).queued ≡ (after begun).took ++ (after begun).ctx.log_queue
queued-split_example = queued-split crates ctx begun (after begun) refl begun_lem

begun-Fair : All Fair begun
begun-Fair = ground arith

run-Done_example : Ends crates (Done crates 1024 1 (after begun)) (after begun)
run-Done_example =
    run-Done crates chunks-IsChunks ctx begun (after begun) (record { queue = refl; file = refl })
      ctx-Healthy (refl, tt) begun-Fair begun_lem

run-SinksHad_example : SinksHad crates 1024 1 (after begun)
run-SinksHad_example =
    run-SinksHad crates ctx begun (after begun) (record { queue = refl; file = refl }) (refl, tt)
      begun_lem

-- The thread sleeps; a client queues an entry, and another one starts to wait for a flush.
abbrev robbed : List Event
robbed = idle_round ++ push (plain ∷ []) ∷ begin_wait ∷ signals ∷ []

robbed_lem :
    ((after robbed).thread.pc ≡ waiting)
    × ((after robbed).ctx.log_signal ≡ true)
    × ((after robbed).pending ≡ 0)
    × ((after robbed).waiters ≡ 1)
unfolding run start perform thread_step start_thread push_logs split_str_into_chunks split_log
    chunk_lines split_lines FileLogger.do_log_batch FileLogger.batch_round write_to_io
    write_compact_to_io write_text flush_file signal_log get insert text_eq SinkLogger.do_log flush
    end_round take_vec with_initial_amount drop_guard
robbed_lem = (refl, refl, refl, refl)

wait_for_flush_steals_example :
    (t : System) × (perform crates end_wait (after robbed) ≡ some t)
    × StillQuiet (after robbed) t
    × ((es : List Event) (u : System)
        → All (λ e. ¬ Pushes e) es
        → run crates es t ≡ some u
        → StillQuiet (after robbed) u)
wait_for_flush_steals_example =
    wait_for_flush_steals crates (after robbed) 0 robbed_lem.0 robbed_lem.1 robbed_lem.2
      robbed_lem.3

-- The thread woke for a first entry and is on its way to write it; then a client waits for a flush.
abbrev blocked : List Event
blocked = idle_round ++ push (plain ∷ []) ∷ signals ∷ advance ∷ advance ∷ advance ∷ begin_wait ∷ []

blocked_lem :
    (needs_write (after blocked).thread.pc ≡ true)
    × ((after blocked).requested ≡ false)
    × ((after blocked).ctx.log_signal ≡ false)
    × ((after blocked).pending ≡ 0)
    × ((after blocked).timed ≡ 0)
    × (0 < (after blocked).waiters)
unfolding run start perform thread_step start_thread push_logs split_str_into_chunks split_log
    chunk_lines split_lines FileLogger.do_log_batch FileLogger.batch_round write_to_io
    write_compact_to_io write_text flush_file signal_log get insert text_eq SinkLogger.do_log flush
    end_round take_vec with_initial_amount drop_guard needs_write
blocked_lem = (refl, refl, refl, refl, refl, omega arith)

wait_for_flush_deadlocks_example :
    (t : System) × (perform crates request (after blocked) ≡ some t)
    × ((e : Event) → perform crates e t ≡ none)
wait_for_flush_deadlocks_example =
    wait_for_flush_deadlocks crates (after blocked) blocked_lem.0 blocked_lem.1 blocked_lem.2
      blocked_lem.3 blocked_lem.4 blocked_lem.5

-- The thread at its start, with two entries in the queue.
abbrev two_queued : LoggerThreadCtx
two_queued = record ctx { log_queue = plain ∷ tagged_a ∷ [] }

start_thread-IsClean : HasCleanPool start_thread
unfolding start_thread
start_thread-IsClean = with_initial_amount-IsClean LogData 2 1024

thread-Settles_example : Settles crates two_queued start_thread
thread-Settles_example = thread-Settles crates two_queued start_thread start_thread-IsClean
