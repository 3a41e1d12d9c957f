-- ===== src/Ffi.antt =====
-- src/ffi.rs and src/ffi/c_str_helper.rs: the interface for C, in the build with the file feature.
-- A `char` pointer is `none` if it is null, and else the bytes up to the NUL. A panic at the border
-- of an `extern "C"` function aborts the process.
pub mod Calls
pub mod Config
pub mod Start
use paperlog.Base.{
  ℕ, ◌%◌, ◌^◌, ◌==◌, ◌≡◌, Bool, true, false, if◌then◌else◌, Text, codes, count, concat, List, [],
  ◌∷◌, length, Option, none, some, ℤ, as_u32,
}
use paperlog.LogLevel.{LogLevel, info}
use paperlog.LogData.{LogData, Instant, default}
use paperlog.LoggerError.{LoggerError, display_error}
use paperlog.LoggerThreadCtx.{
  LoggerConfig, default_config, LoggerThreadCtx, FileSystem, Location, Result, ok, err, add_context,
  remove_context, add_sink, queue_log, wait_for_flush, wait_for_flush_timeout,
}
use paperlog.Global.{Global, get_logger, init_logger}
use paperlog.Logcat.{utf8}

abbrev pub CString : Type 0
CString = List ℕ

-- What is used of the standard library, and the machine's word.
pub record Std : Type 0 where
  pub to_str : CString → Option Text  -- fails if it is not UTF-8
  pub to_string_lossy : CString → Text
  pub usize_bits : ℕ

pub record LoggerConfigFfi : Type 0 where
  pub max_string_len : ℕ  -- c_ulonglong
  pub log_max_buffer_count : ℕ  -- c_ulonglong
  pub line_end : ℕ  -- c_uchar
  pub context_log_path : CString  -- not null, by its contract

-- A call returns and leaves the logger, waits, or aborts.
pub data Call {ℓ} (A : Type ℓ) : Type ℓ where
  returns : A → Global → Call A
  waits : Call A
  aborts : Call A

-- A pointer and a number of bytes.
pub record StringRef : Type 0 where
  pub pointer : Option CString
  pub len : ℕ

-- `impl From<Option<&str>> for StringRef`
unfoldable pub string_ref : Option Text → StringRef
string_ref none = record { pointer = none; len = 0 }
string_ref (some s) = record { pointer = some (utf8 s); len = length (utf8 s) }

pub record LogDataC : Type 0 where
  pub level : LogLevel
  pub tag : StringRef
  pub message : StringRef
  pub timestamp : ℤ  -- i64
  pub file : StringRef
  pub line : ℕ
  pub column : ℕ
  pub function_name : StringRef

-- `impl From<&LogData> for LogDataC`, with chrono's `timestamp`.
unfoldable pub log_data_c : (Instant → ℤ) → LogData → LogDataC
unfolding string_ref
log_data_c timestamp data_ = record {
  level = data_.level;
  tag = string_ref data_.tag;
  message = string_ref (some data_.message);
  timestamp = timestamp data_.timestamp;
  file = string_ref (some data_.file);
  line = data_.line;
  column = data_.column;
  function_name = string_ref data_.function_name;
}

module _ (std : Std) where
  -- `impl From<LoggerConfigFfi> for LoggerConfig`
  unfoldable pub logger_config : LoggerConfigFfi → LoggerConfig
  logger_config ffi = record {
    max_string_len = ffi.max_string_len % 2 ^ std.usize_bits;
    log_max_buffer_count = ffi.log_max_buffer_count % 2 ^ std.usize_bits;
    line_end = ffi.line_end;
    context_log_path = std.to_string_lossy ffi.context_log_path;
  }

  converted_config : Option LoggerConfigFfi → LoggerConfig
  unfolding logger_config
  converted_config none = default_config
  converted_config (some ffi) = logger_config ffi

  -- `init_logger(..).is_ok()`; a panic passes through `init_logger`.
  is_ok : Global → Call Bool
  is_ok none = aborts
  is_ok (some logger) = returns true (some logger)

  init_at : FileSystem → LoggerConfig → Option Text → Global → Call Bool
  unfolding is_ok
  init_at fs config none global = returns false global
  init_at fs config (some path) global = is_ok (init_logger fs config path global)

  unfoldable pub paper2_init_logger_ffi :
      FileSystem → Option LoggerConfigFfi → Option CString → Global → Call Bool
  unfolding init_at converted_config
  paper2_init_logger_ffi fs config none global = returns false global
  paper2_init_logger_ffi fs config (some path) global =
      init_at fs (converted_config config) (std.to_str path) global

  -- The report of a context that could not be made goes into the queue.
  report_context :
      Instant → Location → Text → LoggerThreadCtx → Result LoggerThreadCtx → LoggerThreadCtx
  report_context now here tag logger (ok logger') = logger'
  report_context now here tag logger (err report) = queue_log logger (record (default now) {
    level = info;
    tag = none;
    message =
        concat (codes "Error creating context " ∷ tag ∷ codes ":\n" ∷ display_error report ∷ []);
    file = here.file;
    line = here.line;
    column = here.column;
    function_name = none;
  })

  unfoldable pub paper2_register_context_id :
      FileSystem → Instant → Location → Option CString → Global → Call (Unit {0})
  unfolding report_context
  paper2_register_context_id fs now here (some tag) (some logger) =
      let tag = std.to_string_lossy tag in
      returns tt (some (report_context now here tag logger (add_context fs logger tag)))
  paper2_register_context_id fs now here _ global = returns tt global

  unfoldable pub paper2_unregister_context_id : Option CString → Global → Call (Unit {0})
  paper2_unregister_context_id (some tag) (some logger) =
      returns tt (some (remove_context logger (std.to_string_lossy tag)))
  paper2_unregister_context_id _ global = returns tt global

  owned : Option CString → Option Text
  owned none = none
  owned (some c) = some (std.to_string_lossy c)

  -- The timestamp is that of `Default::default()`.
  unfoldable pub paper2_queue_log_ffi :
      Instant
      → LogLevel
      → (tag message file : Option CString) → (line column : ℤ) → (function_name : Option CString)
      → Global
      → Call Bool
  unfolding owned
  paper2_queue_log_ffi now level tag (some message) (some file) line column function_name
        (some logger) =
      returns true (
        some (
          queue_log logger (record {
            level = level;
            tag = owned tag;
            message = std.to_string_lossy message;
            timestamp = now;
            file = std.to_string_lossy file;
            line = as_u32 line;
            column = as_u32 column;
            function_name = owned function_name;
          })))
  paper2_queue_log_ffi now level tag _ _ line column function_name global = returns false global

after_wait : Option LoggerThreadCtx → Call Bool
after_wait none = waits
after_wait (some logger) = returns true (some logger)

unfoldable pub paper2_wait_for_flush : Global → Call Bool
unfolding after_wait
paper2_wait_for_flush none = returns false none
paper2_wait_for_flush (some logger) = after_wait (wait_for_flush logger)

-- The time is a bound on the wait only.
unfoldable pub paper2_wait_flush_timeout : Global → Call Bool
paper2_wait_flush_timeout none = returns false none
paper2_wait_flush_timeout (some logger) = returns true (some (wait_for_flush_timeout logger))

-- `CString::new(..).unwrap()` panics on a NUL.
unfoldable pub paper2_get_log_directory : Global → Call (Option CString)
paper2_get_log_directory none = returns none none
paper2_get_log_directory (some logger) =
    if count 0 logger.config.context_log_path == 0
    then returns (some (utf8 logger.config.context_log_path)) (some logger)
    else aborts

unfoldable pub paper2_get_inited : Global → Call Bool
paper2_get_inited none = returns false none
paper2_get_inited (some logger) = returns logger.inited (some logger)

-- The callback is told each entry and cannot fail.
unfoldable pub paper2_add_log_sink : Global → Call Bool
paper2_add_log_sink none = returns false none
paper2_add_log_sink (some logger) =
    returns true (some (add_sink logger (record { received = []; reply = λ received log. none })))
