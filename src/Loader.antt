-- ===== src/Loader.antt =====
-- scotland2/src/lib.rs: the mod loader's entry point, which starts the logger inside a game's process,
-- and its panic hook.
pub mod Laws
use paperlog.Base.{
  Bool, true, if◌then◌else◌, Text, codes, concat, show_u32, List, [], ◌∷◌, Option, none, some,
}
use paperlog.LoggerThreadCtx.{LoggerConfig, default_config, FileSystem, Location}
use paperlog.Logcat.{Sent}
use paperlog.Logcat.Direct
use paperlog.ContextPath.{join}
use paperlog.Dispatch.{Payload, panic_message}
use paperlog.Global.{Global, init_logger}
use paperlog.Ffi.{Std, CString}

-- The process. A hook is that of the loader, with its flag `backtrace`.
pub record Host : Type 0 where
  pub logger : Global
  pub hook : Option Bool
  pub android_log : List Sent  -- oldest first

-- A panic, with the backtrace that `Backtrace::force_capture` prints for it.
pub record PanicInfo : Type 0 where
  pub payload : Payload
  pub location : Location
  pub captured : Text

-- A panic that comes to a constructor, which is `extern "C"` and cannot unwind, raises a second panic
-- there, which runs the hook too, and then the process aborts.
pub data Started : Type 0 where
  started : Host → Started
  aborts : Host → Started

-- The line that tells of a panic.
unfoldable pub panicked_at : PanicInfo → Text
panicked_at info = concat (
    codes "Panicked at '"
    ∷ info.location.file
    ∷ codes "', "
    ∷ show_u32 info.location.line
    ∷ codes " "
    ∷ show_u32 info.location.column
    ∷ codes " "
    ∷ panic_message info.payload
    ∷ [])

unfoldable pub logs_path : Text → Text
logs_path id = concat (codes "/sdcard/ModData/" ∷ id ∷ codes "/logs2" ∷ [])

unfoldable pub config_of : Text → LoggerConfig
config_of path = record default_config { context_log_path = path }

-- `android` is `target_os = "android"`.
module _ (android : Bool) where
  log_info : Text → Host → Host
  log_info message_str host =
      if android
      then record host { android_log = Direct.log_info message_str host.android_log }
      else host

  log_error : Text → Host → Host
  log_error message_str host =
      if android
      then record host { android_log = Direct.log_error message_str host.android_log }
      else host

  unfoldable pub panic_hook : Bool → PanicInfo → Host → Host
  unfolding log_error
  panic_hook backtrace info host =
      let host' = log_error (panicked_at info) host in
      if backtrace
      then log_error (concat (codes "Backtrace: " ∷ info.captured ∷ [])) host'
      else host'

  -- A panic runs the hook that is set.
  raise : PanicInfo → Host → Host
  raise info host = elim host.hook [ none ↦ host | some backtrace ↦ panic_hook backtrace info host ]

  -- `info` is the panic of `init_logger`, if it is one; an error it never returns. `boundary` is the
  -- standard library's second panic, in the constructor.
  after_init : PanicInfo → PanicInfo → Host → Global → Started
  unfolding raise
  after_init info boundary host none = aborts (raise boundary (raise info host))
  after_init info boundary host (some logger) = started (record host { logger = some logger })

  -- `application_id` is what the loader's `modloader_get_application_id` answers.
  unfoldable pub dlopen_initialize :
      Std → FileSystem → CString → PanicInfo → PanicInfo → Host → Started
  unfolding log_info after_init
  dlopen_initialize std fs application_id info boundary host =
      let host1 = log_info (codes "DLOpen initializing") host in
      let host2 : Host = record host1 { hook = some true } in
      let path = logs_path (std.to_string_lossy application_id) in
      let file = join path (codes "Paperlog.log") in
      after_init info boundary host2 (init_logger fs (config_of path) file host2.logger)
