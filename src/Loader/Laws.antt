-- ===== src/Loader/Laws.antt =====
-- How the loader's start ends, and which contexts write to the global file.
use paperlog.Base.{
  List, ◌≡◌, ◌⊎◌, ◌↔◌, refl, sym, ap, ◌∙◌, inl, inr, true, Text, codes, concat, count, [], ◌∷◌,
  ◌++◌, drop, none, some, arith, append_assoc, append_cancel_left, append_cancel_right,
}
use paperlog.LoggerThreadCtx.{LoggerThreadCtx, FileSystem}
use paperlog.Logcat.{Priority, info_priority, error_priority, Sent, utf8}
use paperlog.Logcat.Direct.{write}
use paperlog.Logcat.Direct
use paperlog.ContextPath.{slash, join, file_stem, context_path}
use paperlog.ContextPath.Laws.{IsName, context_path-name}
use paperlog.Global.{init_logger}
use paperlog.Global.Laws.{Fails, IsReady, init_logger-IsReady}
use paperlog.Ffi.{Std, CString}
use paperlog.Loader.{
  Host, PanicInfo, started, aborts, panicked_at, logs_path, config_of, log_info, log_error, raise,
  panic_hook, after_init, dlopen_initialize,
}

-- What the loader writes for one message.
abbrev pub line : Priority → Text → Sent
line priority message = record {
  priority = priority;
  tag = codes "Paper2";
  message = utf8 message;
  origin = none;
}

abbrev pub greeting : Sent
greeting = line info_priority (codes "DLOpen initializing")

abbrev pub backtrace_line : PanicInfo → Text
backtrace_line info = concat (codes "Backtrace: " ∷ info.captured ∷ [])

-- The loader's configuration and the path of the global file, for an application.
abbrev pub global_path : Text → Text
global_path id = join (logs_path id) (codes "Paperlog.log")

log_error-line :
    (message : Text) (host : Host)
    → count 0 message ≡ 0
    → log_error true message host
      ≡ record host { android_log = host.android_log ++ line error_priority message ∷ [] }
unfolding log_error Direct.log_error write
log_error-line message host clean = ground arith

-- What the hook tells of a panic.
abbrev panic_lines : PanicInfo → List Sent
panic_lines info =
    line error_priority (panicked_at info) ∷ line error_priority (backtrace_line info) ∷ []

panic_hook-lines :
    (info : PanicInfo) (host : Host)
    → count 0 (panicked_at info) ≡ 0
    → count 0 (backtrace_line info) ≡ 0
    → panic_hook true true info host
      ≡ record host { android_log = host.android_log ++ panic_lines info }
unfolding panic_hook
panic_hook-lines info host clean clean2 =
    ap (log_error true (backtrace_line info)) (log_error-line (panicked_at info) host clean)
    ∙ log_error-line (backtrace_line info)
        (record host {
          android_log = host.android_log ++ line error_priority (panicked_at info) ∷ [];
        })
        clean2
    ∙ ap (λ l. record host { android_log = l })
        (append_assoc host.android_log (line error_priority (panicked_at info) ∷ [])
          (line error_priority (backtrace_line info) ∷ []))

log_info-line :
    (message : Text) (host : Host)
    → count 0 message ≡ 0
    → log_info true message host
      ≡ record host { android_log = host.android_log ++ line info_priority message ∷ [] }
unfolding log_info Direct.log_info write
log_info-line message host clean = ground arith

greeted : Host → Host
greeted host = record host { hook = some true; android_log = host.android_log ++ greeting ∷ [] }

-- What Android's log has when the start fails.
abbrev panicked : PanicInfo → PanicInfo → Host → Host
panicked info boundary host = record host {
  hook = some true;
  android_log = ((host.android_log ++ greeting ∷ []) ++ panic_lines info) ++ panic_lines boundary;
}

module _ (std : Std) (fs : FileSystem) (application_id : CString) (info boundary : PanicInfo)
    (host : Host) where
  abbrev pub id : Text
  id = std.to_string_lossy application_id

  abbrev pub path : Text
  path = global_path id

  -- The logger is there, with the application's directory; the hook is set.
  abbrev pub Starts : Type 0
  Starts =
      (ctx : LoggerThreadCtx) × IsReady fs (config_of (logs_path id)) path ctx
      × (dlopen_initialize true std fs application_id info boundary host
          ≡ started (record {
            logger = some ctx;
            hook = some true;
            android_log = host.android_log ++ greeting ∷ [];
          }))

  -- The process ends, and Android's log tells why.
  abbrev pub Aborts : Type 0
  Aborts =
      Fails fs (config_of (logs_path id)) path
      × (dlopen_initialize true std fs application_id info boundary host
          ≡ aborts (record (panicked info boundary host) { logger = none }))

  begins :
      host.logger ≡ none
      → dlopen_initialize true std fs application_id info boundary host
        ≡ after_init true info boundary
            (greeted host)
            (init_logger fs (config_of (logs_path id)) path none)
  unfolding dlopen_initialize greeted
  begins fresh =
      ap
        (λ h.
          after_init true info boundary (record h { hook = some true })
            (init_logger fs (config_of (logs_path id)) path h.logger))
        (log_info-line (codes "DLOpen initializing") host refl)
      ∙ ap
          (λ logger.
            after_init true info boundary (greeted host)
              (init_logger fs (config_of (logs_path id)) path logger))
          fresh

  -- On Android, in a process without a logger: the loader's start leaves a new logger that writes to
  -- the application's directory and has said so in Android's log, or the process ends, since a
  -- directory or the file could not be made, and then Android's log has the panic with its backtrace
  -- and behind it the second panic, of the constructor that cannot unwind, with its own; the condition
  -- is that these four texts have no NUL in them.
  pub dlopen_initialize-Outcome :
      host.logger ≡ none
      → count 0 (panicked_at info) ≡ 0
      → count 0 (backtrace_line info) ≡ 0
      → count 0 (panicked_at boundary) ≡ 0
      → count 0 (backtrace_line boundary) ≡ 0
      → Starts ⊎ Aborts
  unfolding after_init raise greeted
  dlopen_initialize-Outcome fresh clean clean2 clean3 clean4 =
      elim (init_logger-IsReady fs (config_of (logs_path id)) path) [
        | inl (ctx, made, ready) ↦
            inl (ctx, ready, begins fresh ∙ ap (after_init true info boundary (greeted host)) made)
        | inr (nothing, failed) ↦ inr (
          failed,
          begins fresh
              ∙ ap (after_init true info boundary (greeted host)) nothing
              ∙ ap (λ h. aborts (raise true boundary h))
                  (panic_hook-lines info (greeted host) clean clean2)
              ∙ ap aborts (
                  panic_hook-lines boundary
                    (record (greeted host) {
                      android_log = (greeted host).android_log ++ panic_lines info;
                    })
                    clean3 clean4)
              ∙ ap (λ logger. aborts (record (panicked info boundary host) { logger = logger }))
                  fresh,
        )
      ]

same_file :
    (dir tag : Text)
    → IsName tag
    → (context_path dir tag ≡ join dir (codes "Paperlog.log")) ↔ (file_stem tag ≡ codes "Paperlog")
unfolding join
same_file dir tag name =
    let e = context_path-name dir tag name in
    let split : join dir (codes "Paperlog.log") ≡ dir ++ slash ∷ codes "Paperlog" ++ codes ".log" =
      sym (append_assoc dir (slash ∷ codes "Paperlog") (codes ".log")) in
    (
      λ same. ap (drop 1) (
          append_cancel_left dir (slash ∷ file_stem tag) (slash ∷ codes "Paperlog") (
            append_cancel_right (dir ++ slash ∷ file_stem tag) (dir ++ slash ∷ codes "Paperlog")
              (codes ".log") (sym e ∙ same ∙ split))),
      λ stem. e ∙ ap (λ s. dir ++ slash ∷ s ++ codes ".log") stem ∙ sym split,
    )

module _ (std : Std) (fs : FileSystem) (application_id : CString) (info boundary : PanicInfo)
    (host after : Host) where
  started-config :
      (ctx : LoggerThreadCtx)
      → host.logger ≡ none
      → dlopen_initialize true std fs application_id info boundary host ≡ started after
      → after.logger ≡ some ctx
      → ctx.config ≡ config_of (logs_path (std.to_string_lossy application_id))
  unfolding after_init
  started-config ctx fresh up logger =
      let e = sym (begins std fs application_id info boundary host fresh) ∙ up in
      elim (init_logger-IsReady fs (config_of (logs_path (std.to_string_lossy application_id)))
        (global_path (std.to_string_lossy application_id))) [
          | inl (ctx', made, ready) ↦ ground (arith, ready.config, made)
          | inr (nothing, failed) ↦ ground (arith, nothing)
        ]

  -- In a process where the loader has started the logger, a context whose tag is a plain name writes
  -- to the very file of the global log if the tag, less what stands behind its last dot, is Paperlog,
  -- and else to another file.
  pub context_path-global_iff :
      (ctx : LoggerThreadCtx) (tag : Text)
      → host.logger ≡ none
      → dlopen_initialize true std fs application_id info boundary host ≡ started after
      → after.logger ≡ some ctx
      → IsName tag
      → (context_path ctx.config.context_log_path tag
          ≡ global_path (std.to_string_lossy application_id))
        ↔ (file_stem tag ≡ codes "Paperlog")
  unfolding config_of
  context_path-global_iff ctx tag fresh up logger name =
      rw (started-config ctx fresh up logger)
        (same_file (logs_path (std.to_string_lossy application_id)) tag name)
