-- ===== src/Tests/Parts.antt =====
-- The parts of the logger on concrete entries, pools, sinks and tags.
use paperlog.Base.{
  newline, ◌⊎◌, show_u32, ℕ, ◌<◌, ◌≤◌, ◌≡◌, ◌↔◌, refl, codes, List, [], ◌∷◌, ◌++◌, length, none,
  some, Bool, true, false, arith, replicate,
}
use paperlog.Io.{IoError}
use paperlog.TextMap.{get}
use paperlog.LogLevel.{error}
use paperlog.LogData.{LogData, full_line}
use paperlog.Chunks.{split_str_into_chunks}
use paperlog.Chunks.Laws.{CutOf, split_str_into_chunks-CutOf}
use paperlog.Semaphore.{
  Semaphore, Reach, here, next, enters, signals, resumes, new, signal, test_flag,
}
use paperlog.Semaphore.Atomic.{Flag, Reach-Flag}
use paperlog.ContextPath.{context_path}
use paperlog.ContextPath.Laws.{context_path_shared}
use paperlog.LoggerError.{log_error}
use paperlog.LoggerThreadCtx.{Sink, Location, flush}
use paperlog.LoggerThreadCtx.Flush.{AllPushed, flush-AllPushed}
use paperlog.Dispatch.{static_str, panic_hook}
use paperlog.Dispatch.Laws.{entry, panic_entry, panic_hook-writes}
use paperlog.FileLogger
use paperlog.FileLogger.Batch.{each, do_log_batch-each}
use paperlog.FileLogger.Round.{AllSound}
use paperlog.FileLogger.Contents.{Wrote, do_log_batch-Wrote}
use paperlog.SinkLogger.{call_sinks, Delivered, call_sinks-Delivered}
use paperlog.Logcat
use paperlog.Logcat.Laws.{room, NoNul, do_log-panics_iff}
use paperlog.Tests.Data.{chunks, chunks-IsChunks, crates, plain, tagged_a, ctx}

abbrev both : List LogData
both = plain ∷ tagged_a ∷ []

ctx-AllSound : AllSound ctx
unfolding get
ctx-AllSound = record { global = refl; contexts = λ k f e. ground arith }

do_log_batch-Wrote_example :
    ((FileLogger.do_log_batch crates.format_time both ctx).1 ≡ none)
    × Wrote crates.format_time both ctx (FileLogger.do_log_batch crates.format_time both ctx).0
    × AllSound (FileLogger.do_log_batch crates.format_time both ctx).0
do_log_batch-Wrote_example = do_log_batch-Wrote crates.format_time both ctx ctx-AllSound

do_log_batch-each_example :
    FileLogger.do_log_batch crates.format_time both ctx
    ≡ each (FileLogger.do_log crates.format_time) both ctx
do_log_batch-each_example = do_log_batch-each crates.format_time both ctx

-- An entry of two lines, of which the first has two pieces.
abbrev two_lines : List LogData
two_lines = record plain { message = codes "abc" ++ newline ∷ codes "d" } ∷ tagged_a ∷ []

split_str_into_chunks-CutOf_example :
    (out : List LogData) × (split_str_into_chunks chunks two_lines 2 ≡ some out)
    × CutOf 2 two_lines out
split_str_into_chunks-CutOf_example = split_str_into_chunks-CutOf chunks-IsChunks 1 two_lines

-- One sink that accepts a first entry only.
abbrev once : Sink
once = record {
  received = plain ∷ [];
  reply = λ before log. elim before [ [] ↦ none | x ∷ xs ↦ some (log_error (codes "full")) ];
}

abbrev two_sinks : List Sink
two_sinks = record { received = []; reply = λ before log. none } ∷ once ∷ []

call_sinks-Delivered_example : Delivered tagged_a two_sinks (call_sinks tagged_a two_sinks)
call_sinks-Delivered_example = call_sinks-Delivered tagged_a two_sinks

-- Two threads park, one signal comes, both wake and one passes.
abbrev woken_both : Semaphore
woken_both = test_flag (test_flag (signal (test_flag (test_flag new 0) 1)) 0) 1

two_wait : Reach new 1 woken_both
unfolding new test_flag signal
two_wait =
    next
      (next (next (next (next here (enters 0 refl) refl) (enters 1 refl) refl) signals refl)
        (resumes 0 refl) refl)
      (resumes 1 refl) refl

Reach-Flag_example : Flag woken_both.flag woken_both.passes 1
Reach-Flag_example = Reach-Flag two_wait

-- "net.http" and "net.tcp" both write to net.log.
context_path_shared_example :
    context_path (codes "./logs") (codes "net.http")
    ≡ context_path (codes "./logs") (codes "net.tcp")
context_path_shared_example =
    context_path_shared (codes "./logs") (codes "net") (codes "http") (codes "tcp") (refl, λ e. cc)
      refl refl refl refl

-- A tag of fifty characters.
abbrev long_tagged : LogData
long_tagged = record plain { tag = some (replicate 50 b'T') }

do_log-panics_iff_example :
    ((Logcat.do_log long_tagged []).0 ≡ Logcat.panicked)
    ↔ (room long_tagged < length (Logcat.tag_bytes long_tagged))
do_log-panics_iff_example = do_log-panics_iff long_tagged

tagged_a-NoNul : NoNul tagged_a
unfolding Logcat.tag_bytes Logcat.message_str Logcat.utf8 show_u32
tagged_a-NoNul = record { tag = refl; message = refl }

tagged_a-fits : length (Logcat.tag_bytes tagged_a) ≤ room tagged_a
unfolding Logcat.tag_bytes Logcat.utf8
tagged_a-fits = omega arith

-- Android drops what is below a warning.
abbrev loggable : Logcat.Priority → List ℕ → Bool
loggable Logcat.info_priority tag = false
loggable _ tag = true

abbrev info_b : LogData
info_b = record plain { tag = some (codes "B") }

flush-AllPushed_example :
    (((flush ctx).1 ≡ none) × AllPushed (flush ctx).0 × ((flush ctx).0.flush_signal ≡ true))
    ⊎ ((e : IoError) × ((flush ctx).1 ≡ some e) × ((flush ctx).0.flush_signal ≡ ctx.flush_signal))
flush-AllPushed_example = flush-AllPushed ctx

abbrev spot : Location
spot = record { file = codes "ctx.rs"; line = 440; column = 9 }

abbrev culprit : Location
culprit = record { file = codes "m.rs"; line = 3; column = 1 }

panic_hook-writes_example :
    (panic_hook crates.format_time true ctx
      (static_str (codes "oh"))
      culprit
      (codes "bt")
      2
      spot).global_file.text
    ≡ ctx.global_file.text
      ++ full_line crates.format_time (panic_entry (static_str (codes "oh")) culprit 2 spot)
      ++ full_line crates.format_time (entry error (some (codes "panic")) (codes "bt") 2 spot)
panic_hook-writes_example =
    panic_hook-writes crates.format_time true ctx (static_str (codes "oh")) culprit (codes "bt") 2
      spot ctx-AllSound
