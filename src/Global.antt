-- ===== src/Global.antt =====
-- src/lib.rs: the process-wide logger, a OnceLock that is empty or holds the logger for good.
pub mod Laws
use paperlog.Base.{Bool, true, false, Text, Option, none, some}
use paperlog.LoggerThreadCtx.{LoggerConfig, LoggerThreadCtx, FileSystem, Result, ok, err, new, init}

-- What the OnceLock holds.
abbrev pub Global : Type 0
Global = Option LoggerThreadCtx

-- `get_logger`
unfoldable pub get_logger : Global → Option LoggerThreadCtx
get_logger global = global

-- `expect` panics on an error.
expect_init : Result (LoggerThreadCtx × Bool) → Global
expect_init (err e) = none
expect_init (ok (ctx, hook)) = some ctx

expect_new : Result LoggerThreadCtx → Global
unfolding expect_init
expect_new (err e) = none
expect_new (ok ctx) = expect_init (init ctx false)

-- `init_logger`: the logger that it leaves and returns, or `none` where it panics, and then the
-- OnceLock stays empty. It never returns an error.
unfoldable pub init_logger : FileSystem → LoggerConfig → Text → Global → Global
unfolding expect_new
init_logger fs config path (some logger) = some logger
init_logger fs config path none = expect_new (new fs config path)
