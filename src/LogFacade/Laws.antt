-- ===== src/LogFacade/Laws.antt =====
-- Which records reach the queue, and as what.
use paperlog.Base.{
  Option, Option-cases, inl, inr, false, ◌<◌, ◌^◌, ◌≡◌, ◌≢◌, ◌⊎◌, refl, true, Text, count, none,
  some, unwrap_or, as_u32, as_u32-as_i32, arith,
}
use paperlog.LogData.{Instant}
use paperlog.Logcat.{utf8}
use paperlog.LoggerThreadCtx.{LoggerThreadCtx, queue_log}
use paperlog.Global.{Global}
use paperlog.Ffi.{Std, returns, paper2_queue_log_ffi, paper2_get_inited}
use paperlog.LogFacade.{
  Record, LevelFilter, map_level, c_string_new, c_string_of, enabled, ignored, if_inited,
  queue_record, log, init_with_max_level,
}

-- A text that passes through a C string: no NUL, and it is decoded as it was encoded.
pub record Passes (std : Std) (s : Text) : Type 0 where
  pub no_nul : count 0 s ≡ 0
  pub decoded : std.to_string_lossy (utf8 s) ≡ s

module _ (std : Std) where
  pub encodes : (s : Text) → Passes std s → c_string_new s ≡ some (utf8 s)
  unfolding c_string_new
  encodes s p = ground (arith, p.no_nul)

  -- A record that is enabled, of an initialised logger, with a module path and a file, all of whose
  -- texts pass through C strings, and whose line is a u32: it is queued with its level, message, file
  -- and line, and with the module path as tag and as function.
  pub log-queues :
      (now : Instant) (max_level : LevelFilter) (r : Record) (logger : LoggerThreadCtx)
      (path file : Text)
      → enabled max_level r.level ≡ true
      → logger.inited ≡ true
      → r.module_path ≡ some path
      → r.file ≡ some file
      → Passes std path
      → Passes std file
      → Passes std r.args
      → unwrap_or r.line 0 < 2 ^ 32
      → log std now max_level r (some logger)
        ≡ returns tt (
            some (
              queue_log logger (record {
                level = map_level r.level;
                tag = some path;
                message = r.args;
                timestamp = now;
                file = file;
                line = unwrap_or r.line 0;
                column = 0;
                function_name = some path;
              })))
  unfolding log queue_record if_inited ignored c_string_of c_string_new paper2_get_inited
      paper2_queue_log_ffi as_u32
  log-queues now max_level r logger path file on inited has_path has_file p f a small =
      rw (on, inited, has_path, has_file, encodes path p, encodes file f, encodes r.args a)
        (rw (p.decoded, f.decoded, a.decoded, as_u32-as_i32 (unwrap_or r.line 0) small) refl)

  -- A record without a file, or with a NUL in its message, is lost without a sign.
  pub log-drops :
      (now : Instant) (max_level : LevelFilter) (r : Record) (global : Global)
      → (r.file ≡ none) ⊎ (count 0 r.args ≢ 0)
      → log std now max_level r global ≡ returns tt global
  unfolding log queue_record if_inited ignored c_string_of c_string_new paper2_get_inited
      paper2_queue_log_ffi
  log-drops now max_level r global h = ground arith

-- The maximum level becomes the one given, if the logger can be set, and else nothing changes.
init_with_max_level_lem :
    {D : Type 0}
    → (set_boxed_logger : D → Option D) → (level max_level : LevelFilter) → (logger : D)
    → ((logger' : D) × (set_boxed_logger logger ≡ some logger')
        × (init_with_max_level set_boxed_logger level (logger, max_level) ≡ (true, logger', level)))
      ⊎ ((set_boxed_logger logger ≡ none)
          × (init_with_max_level set_boxed_logger level (logger, max_level)
              ≡ (false, logger, max_level)))
unfolding init_with_max_level
init_with_max_level_lem set_boxed_logger level max_level logger =
    elim (Option-cases (set_boxed_logger logger)) [
      | inl failed ↦ inr (failed, ground arith)
      | inr (logger', set) ↦ inl (logger', set, ground arith)
    ]
