-- ===== src/LogFacade.antt =====
-- paper2_log/src/lib.rs: records of the `log` crate go through the C interface into the queue. The
-- crate's own maximum level is an argument.
pub mod Laws
use paperlog.Base.{
  ℕ, leb, ◌==◌, Bool, true, false, if◌then◌else◌, Text, count, Option, none, some, unwrap_or, pos,
  as_i32,
}
use paperlog.LogLevel
use paperlog.LogData.{Instant}
use paperlog.Logcat.{utf8}
use paperlog.Global.{Global}
use paperlog.Ffi.{
  Std, CString, Call, returns, waits, aborts, paper2_queue_log_ffi, paper2_get_inited,
  paper2_wait_for_flush,
}

-- `log::Level`
pub data Level : Type 0 where
  error warn info debug trace : Level

-- Its order: the numbers of the crate's enum.
unfoldable pub rank : Level → ℕ
rank error = 1
rank warn = 2
rank info = 3
rank debug = 4
rank trace = 5

-- `log::LevelFilter`
pub data LevelFilter : Type 0 where
  off : LevelFilter
  up_to : Level → LevelFilter

filter_rank : LevelFilter → ℕ
unfolding rank
filter_rank off = 0
filter_rank (up_to level) = rank level

-- `log::Record`
pub record Record : Type 0 where
  pub level : Level
  pub args : Text  -- printed
  pub module_path : Option Text
  pub file : Option Text
  pub line : Option ℕ  -- u32

unfoldable pub map_level : Level → LogLevel.LogLevel
map_level error = LogLevel.error
map_level warn = LogLevel.warn
map_level info = LogLevel.info
map_level debug = LogLevel.debug
map_level trace = LogLevel.debug

-- `CString::new(..).ok()`: there is none with a NUL inside.
unfoldable pub c_string_new : Text → Option CString
c_string_new s = if count 0 s == 0 then some (utf8 s) else none

-- `and_then` with it
unfoldable pub c_string_of : Option Text → Option CString
unfolding c_string_new
c_string_of none = none
c_string_of (some s) = c_string_new s

unfoldable pub enabled : LevelFilter → Level → Bool
unfolding rank filter_rank
enabled max_level level = leb (rank level) (filter_rank max_level)

-- `let _ = ..`
ignored : Call Bool → Call (Unit {0})
ignored (returns b global) = returns tt global
ignored waits = waits
ignored aborts = aborts

-- What is done if `paper2_get_inited()` says so.
if_inited : (Global → Call Bool) → Call Bool → Call (Unit {0})
unfolding ignored
if_inited body (returns true global) = ignored (body global)
if_inited body (returns false global) = returns tt global
if_inited body waits = waits
if_inited body aborts = aborts

module _ (std : Std) where
  queue_record : Instant → Record → Global → Call Bool
  unfolding c_string_of
  queue_record now r global =
      paper2_queue_log_ffi std now (map_level r.level) (c_string_of r.module_path)
        (c_string_new r.args) (c_string_of r.file) (as_i32 (unwrap_or r.line 0)) (pos 0)
        (c_string_of r.module_path) global

  -- `Log::log`
  unfoldable pub log : Instant → LevelFilter → Record → Global → Call (Unit {0})
  unfolding queue_record if_inited
  log now max_level r global =
      if enabled max_level r.level
      then if_inited (queue_record now r) (paper2_get_inited global)
      else returns tt global

-- `Log::flush`
unfoldable pub flush : Global → Call (Unit {0})
unfolding if_inited
flush global = if_inited paper2_wait_for_flush (paper2_get_inited global)

-- `init_with_max_level`: whether it succeeds, and the log crate's logger and maximum level after it.
-- `set_boxed_logger` is the crate's, which fails once there is a logger.
unfoldable pub init_with_max_level :
    {D : Type 0}
    → (set_boxed_logger : D → Option D) → LevelFilter
    → D × LevelFilter
    → Bool × D × LevelFilter
init_with_max_level set_boxed_logger level (logger, max_level) = elim (set_boxed_logger logger) [
  | none ↦ (false, logger, max_level)
  | some logger' ↦ (true, logger', level)
]
