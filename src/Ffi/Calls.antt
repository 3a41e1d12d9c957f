-- ===== src/Ffi/Calls.antt =====
-- What the calls of the interface do one after the other.
use paperlog.Base.{
  ◌≡◌, refl, sym, ap, ◌∙◌, true, false, Text, text_eq, List, [], ◌∷◌, ◌++◌, Option, none, some, ℤ,
  arith, inl, inr, Option-cases, if◌then◌else◌,
}
use paperlog.Io.{Outcome, new_file}
use paperlog.TextMap.{get, insert, remove, get-remove, get-insert}
use paperlog.ContextPath.{context_path}
use paperlog.LogLevel.{LogLevel}
use paperlog.LogData.{LogData, Instant}
use paperlog.LoggerThreadCtx.{
  LoggerConfig, LoggerThreadCtx, FileSystem, Location, add_context, remove_context, queue_log,
  push_log, push_logs, signal_log, created,
}
use paperlog.LogThread.{Crates}
use paperlog.Protocol.{System, push, signals, perform, run}
use paperlog.Global.{Global, init_logger}
use paperlog.Global.Laws.{init_logger-IsReady}
use paperlog.Ffi.{
  Std, CString, LoggerConfigFfi, returns, paper2_init_logger_ffi, init_at, is_ok, converted_config,
  paper2_register_context_id, report_context, paper2_unregister_context_id, paper2_queue_log_ffi,
  paper2_wait_for_flush, paper2_wait_flush_timeout, paper2_get_log_directory, paper2_get_inited,
  paper2_add_log_sink,
}

-- `queue_log` is the two events push and signal of the protocol, with nothing in between.
pub queue_log-events :
    (crates : Crates) (s : System) (log : LogData)
    → s.requested ≡ false
    → run crates (push (log ∷ []) ∷ signals ∷ []) s
      ≡ some (record s { ctx = queue_log s.ctx log; queued = s.queued ++ log ∷ [] })
unfolding run perform queue_log push_logs push_log signal_log
queue_log-events crates s log free = rw free refl

module _ (std : Std) where
  -- Before there is a logger, no call but the one that makes it changes anything, waits or aborts.
  before_init :
      (fs : FileSystem) (now : Instant) (here : Location) (level : LogLevel)
      (tag message file function_name : Option CString) (line column : ℤ)
      → (paper2_register_context_id std fs now here tag none ≡ returns tt none)
        × (paper2_unregister_context_id std tag none ≡ returns tt none)
        × (paper2_queue_log_ffi std now level tag message file line column function_name none
            ≡ returns false none)
        × (paper2_wait_for_flush none ≡ returns false none)
        × (paper2_wait_flush_timeout none ≡ returns false none)
        × (paper2_get_log_directory none ≡ returns none none)
        × (paper2_get_inited none ≡ returns false none)
        × (paper2_add_log_sink none ≡ returns false none)
  unfolding paper2_register_context_id paper2_unregister_context_id paper2_queue_log_ffi
      paper2_wait_for_flush paper2_wait_flush_timeout paper2_get_log_directory paper2_get_inited
      paper2_add_log_sink
  before_init fs now here level tag message file function_name line column = ground arith

  is_ok-inited :
      (fs : FileSystem) (config : LoggerConfig) (path : Text) (global : Global)
      → is_ok std (init_logger fs config path none) ≡ returns true global
      → paper2_get_inited global ≡ returns true global
  unfolding is_ok paper2_get_inited
  is_ok-inited fs config path global e = elim (init_logger-IsReady fs config path) [
    | inl (ctx, made, ready) ↦ ground (arith, ready.inited)
    | inr (none_left, why) ↦ ground arith
  ]

  -- If the first call to make the logger returns true, the logger says that it is initialised.
  init-get_inited :
      (fs : FileSystem) (config : Option LoggerConfigFfi) (path : Option CString) (global : Global)
      → paper2_init_logger_ffi std fs config path none ≡ returns true global
      → paper2_get_inited global ≡ returns true global
  unfolding paper2_init_logger_ffi init_at
  init-get_inited fs config none global e = ground arith
  init-get_inited fs config (some path) global e = elim (Option-cases (std.to_str path)) [
    | inl bad ↦ ground arith
    | inr (text, good) ↦
        is_ok-inited fs (converted_config std config) text global
          (sym (ap (λ o. init_at std fs (converted_config std config) o none) good) ∙ e)
  ]

  -- A context that is registered and then unregistered, where its file can be made: the tag has no
  -- file, every other tag has the one it had, and the queue is as it was.
  pub register-unregister :
      (fs : FileSystem) (now : Instant) (here : Location) (tag : CString) (logger : LoggerThreadCtx)
      (os : List Outcome)
      → fs.create (context_path logger.config.context_log_path (std.to_string_lossy tag))
        ≡ created os
      → (middle after : LoggerThreadCtx) × (paper2_register_context_id std fs now here
            (some tag)
            (some logger)
          ≡ returns tt (some middle))
        × (paper2_unregister_context_id std (some tag) (some middle) ≡ returns tt (some after))
        × ((k : Text)
            → get k after.context_map
              ≡ (if text_eq (std.to_string_lossy tag) k then none else get k logger.context_map))
        × (after.log_queue ≡ logger.log_queue)
  unfolding paper2_register_context_id report_context paper2_unregister_context_id add_context
      remove_context
  register-unregister fs now here tag logger os made =
      let t = std.to_string_lossy tag in
      let m = insert t (new_file os) logger.context_map in
      (
        record logger { context_map = m },
        record logger { context_map = remove t m },
        rw made refl,
        refl,
        λ k. get-remove t k m ∙ ground (arith, get-insert t k (new_file os) logger.context_map),
        refl,
      )
