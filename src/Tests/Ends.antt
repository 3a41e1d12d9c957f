-- ===== src/Tests/Ends.antt =====
-- How the logging thread ends, loggers whose configuration does not fit the machine's word, and a
-- flush in another order.
use paperlog.Base.{◌≡◌, refl, codes, [], ◌∷◌, none, some, true, unwrap_or}
use paperlog.LoggerError.{log_error}
use paperlog.LoggerThreadCtx.{LoggerThreadCtx, push_logs, signal_log, new, init}
use paperlog.FileLogger.Health.{FilesSound}
use mathlib.Core.List.{Permᴰ}
use paperlog.Io.{new_file, fails}
use paperlog.LoggerThreadCtx.{flush}
use paperlog.LoggerThreadCtx.AnyOrder.{Agree, flush-Agree}
use paperlog.LogThread.{Thread, start_thread, failed, stopped, panicked, thread_step}
use paperlog.LogThread.Over.{Reported, failed-Reported}
use paperlog.Protocol.{System, push, signals, advance, perform, run, start}
use paperlog.Protocol.Ended.{Left, run-Left}
use paperlog.Global.{init_logger}
use paperlog.Ffi.{LoggerConfigFfi, returns, paper2_init_logger_ffi, logger_config}
use paperlog.Base.{arith}
use paperlog.Protocol.Delivery.{Ends}
use paperlog.Protocol.Complete.{Done}
use paperlog.Ffi.Start.{IsSoundDisk, init-Done}
use paperlog.Ffi.Config.{wrapped_limit_panics}
use paperlog.Tests.Data.{chunks-IsChunks, crates, plain, ctx}
use paperlog.Tests.Interface.{std, fs, path}

abbrev failing : Thread
failing = record start_thread { pc = failed (log_error (codes "gone")) }

ctx-FilesSound : FilesSound ctx
ctx-FilesSound = record { global = refl; contexts = (refl, tt) }

failed-Reported_example :
    (ctx1 ctx2 : LoggerThreadCtx) × (t1 t2 : Thread) × (thread_step crates ctx failing
      ≡ some (ctx1, t1))
    × (thread_step crates ctx1 t1 ≡ some (ctx2, t2))
    × (t2.pc ≡ stopped (log_error (codes "gone")))
    × Reported crates ctx ctx2 (log_error (codes "gone"))
failed-Reported_example =
    failed-Reported crates ctx failing (log_error (codes "gone")) refl ctx-FilesSound

-- The thread has panicked, and one entry was queued since.
abbrev dead : System
dead = record (start ctx) { thread = record start_thread { pc = panicked } }

abbrev buried : System
buried = record dead {
  ctx = record ctx { log_queue = plain ∷ []; log_signal = true };
  queued = plain ∷ [];
}

buried_lem : run crates (push (plain ∷ []) ∷ signals ∷ []) dead ≡ some buried
unfolding run perform push_logs signal_log start
buried_lem = refl

run-Left_example : Left dead buried
run-Left_example = run-Left crates (push (plain ∷ []) ∷ signals ∷ []) dead buried tt buried_lem

-- Two to the 32 is no limit for a word of 32 bits.
abbrev wide : LoggerConfigFfi
wide = record {
  max_string_len = 4294967296;
  log_max_buffer_count = 100;
  line_end = 10;
  context_log_path = codes "/log/c";
}

abbrev made : LoggerThreadCtx
made = unwrap_or (init_logger fs (logger_config std wide) path none) ctx

made_lem : paper2_init_logger_ffi std fs (some wide) (some path) none ≡ returns true (some made)
unfolding paper2_init_logger_ffi init_logger new init logger_config
made_lem = refl

wrapped_limit_panics_example :
    (s : System) × (run crates (push (plain ∷ []) ∷ advance ∷ advance ∷ []) (start made) ≡ some s)
    × (s.thread.pc ≡ panicked)
    × (s.took ≡ plain ∷ [])
wrapped_limit_panics_example =
    wrapped_limit_panics std crates chunks-IsChunks fs wide path made plain [] made_lem refl

abbrev narrow : LoggerConfigFfi
narrow = record wide { max_string_len = 1024 }

abbrev small : LoggerThreadCtx
small = unwrap_or (init_logger fs (logger_config std narrow) path none) ctx

small_lem :
    (paper2_init_logger_ffi std fs (some narrow) (some path) none ≡ returns true (some small))
    × (run crates (push (plain ∷ []) ∷ signals ∷ []) (start small)
        ≡ some (record (start small) {
          ctx = record small { log_queue = plain ∷ []; log_signal = true };
          queued = plain ∷ [];
        }))
unfolding paper2_init_logger_ffi init_logger new init logger_config run perform push_logs signal_log
    start
small_lem = (refl, refl)

-- The disk of the tests makes files that take every write.
fs-IsSoundDisk : IsSoundDisk fs
fs-IsSoundDisk p os made = ground (arith, made)

abbrev small_queued : System
small_queued = record (start small) {
  ctx = record small { log_queue = plain ∷ []; log_signal = true };
  queued = plain ∷ [];
}

init-Done_example : Ends crates (Done crates 1024 0 small_queued) small_queued
init-Done_example =
    init-Done std fs narrow path small crates chunks-IsChunks (push (plain ∷ []) ∷ signals ∷ []) _
      small_lem.0 fs-IsSoundDisk (omega arith) (tt, (tt, tt)) small_lem.1

-- A logger with two contexts, of which the second fails to flush.
abbrev with_two : LoggerThreadCtx
with_two = record ctx {
  context_map =
      record { key = codes "A"; value = new_file [] }
      ∷ record {
        key = codes "B";
        value = new_file (fails 0 (record { message = codes "full" }) ∷ []);
      }
      ∷ [];
}

flush-Agree_example : Agree with_two (flush with_two) (
    flush (record with_two {
      context_map =
          record {
            key = codes "B";
            value = new_file (fails 0 (record { message = codes "full" }) ∷ []);
          }
          ∷ record { key = codes "A"; value = new_file [] }
          ∷ [];
    }))
flush-Agree_example = flush-Agree with_two _ (Permᴰ.swap refl refl)
