-- ===== src/Tests/Loading.antt =====
-- A start by the mod loader that goes well.
use paperlog.Base.{
  ◌≡◌, ◌↔◌, ◌⊎◌, refl, codes, [], ◌∷◌, none, some, true, false, arith, show_u32, count,
}
use paperlog.LoggerThreadCtx.{LoggerThreadCtx, new, init, default_config}
use paperlog.Dispatch.{static_str, panic_message}
use paperlog.ContextPath.{context_path, file_stem}
use paperlog.Io.{new_file}
use paperlog.Logcat.Direct.{write, log_info}
use paperlog.Ffi.{CString}
use paperlog.Loader.{Host, PanicInfo, started, dlopen_initialize, config_of, panicked_at, logs_path}
use paperlog.Loader.Laws.{
  Starts, Aborts, greeting, global_path, dlopen_initialize-Outcome, context_path-global_iff,
}
use paperlog.Global.{init_logger}
use paperlog.Tests.Interface.{std, fs}

abbrev game : CString
game = codes "com.game"

abbrev host : Host
host = record { logger = none; hook = none; android_log = [] }

abbrev info : PanicInfo
info = record {
  payload = static_str (codes "no logger");
  location = record { file = codes "lib.rs"; line = 66; column = 60 };
  captured = codes "0: main";
}

-- The panic of the constructor.
abbrev boundary : PanicInfo
boundary = record {
  payload = static_str (codes "panic in a function that cannot unwind");
  location = record { file = codes "panicking.rs"; line = 225; column = 5 };
  captured = codes "0: dlopen";
}

boundary-clean : count 0 (panicked_at boundary) ≡ 0
unfolding panicked_at panic_message show_u32
boundary-clean = refl

panicked_at-clean : count 0 (panicked_at info) ≡ 0
unfolding panicked_at panic_message show_u32
panicked_at-clean = refl

dlopen_initialize-Outcome_example :
    Starts std fs game info boundary host ⊎ Aborts std fs game info boundary host
dlopen_initialize-Outcome_example =
    dlopen_initialize-Outcome std fs game info boundary host refl panicked_at-clean refl
      boundary-clean refl

abbrev logger : LoggerThreadCtx
logger = record {
  config = record default_config { context_log_path = codes "/sdcard/ModData/com.game/logs2" };
  log_queue = [];
  log_signal = false;
  flush_signal = false;
  inited = true;
  global_file = new_file [];
  context_map = [];
  sinks = [];
}

abbrev served : Host
served = record { logger = some logger; hook = some true; android_log = greeting ∷ [] }

serves : dlopen_initialize true std fs game info boundary host ≡ started served
unfolding dlopen_initialize init_logger config_of logs_path new init write log_info
serves = refl

context_path-global_iff_example :
    (context_path logger.config.context_log_path (codes "Paperlog.net") ≡ global_path game)
    ↔ (file_stem (codes "Paperlog.net") ≡ codes "Paperlog")
context_path-global_iff_example =
    context_path-global_iff std fs game info boundary host served logger (codes "Paperlog.net") refl
      serves refl (ground arith)
