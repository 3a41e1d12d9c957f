-- ===== src/Ffi/Config.antt =====
-- The sizes of a configuration from C, in the machine's word.
use paperlog.Base.{
  ℕ, ◌%◌, ◌^◌, ◌<◌, ◌≡◌, ◌↔◌, refl, sym, ap, subst, ◌∙◌, true, Text, List, [], ◌∷◌, ◌++◌,
  append-nil, some, none, arith, inl, inr, Option-cases,
}
use native.Mathlib.Nat
use paperlog.LogData.{LogData}
use paperlog.Chunks.{IsChunks}
use paperlog.Chunks.Laws.{split_str_into_chunks-zero}
use paperlog.LoggerThreadCtx.{LoggerThreadCtx, LoggerConfig, FileSystem, push_logs}
use paperlog.LogThread.{Crates, panicked, start_thread, thread_step, take_batch}
use paperlog.Protocol.{System, push, advance, perform, run, start}
use paperlog.Protocol.Moves.{push_logs-eq}
use paperlog.Global.{init_logger}
use paperlog.Global.Laws.{IsReady, init_logger-IsReady}
use paperlog.Ffi.{
  Std, CString, LoggerConfigFfi, returns, paper2_init_logger_ffi, init_at, is_ok, converted_config,
  logger_config,
}

fits_iff : (n w : ℕ) → (n % 2 ^ w ≡ n) ↔ (n < 2 ^ w)
fits_iff n w = (
  λ same. subst (λ m. m < 2 ^ w) same (Nat.mod-lt n (Nat.one-le-pow w 2 (omega arith))),
  λ small. Nat.mod-eq_of_lt small,
)

module _ (std : Std) where
  is_ok-IsReady :
      (fs : FileSystem) (config : LoggerConfig) (path : Text) (logger : LoggerThreadCtx)
      → is_ok std (init_logger fs config path none) ≡ returns true (some logger)
      → IsReady fs config path logger
  unfolding is_ok
  is_ok-IsReady fs config path logger e = elim (init_logger-IsReady fs config path) [
    | inl (ctx, made, ready) ↦
        let both : returns true (some ctx) ≡ returns true (some logger) =
          sym (ap (is_ok std) made) ∙ e in
        let same : ctx ≡ logger = cc in subst (IsReady fs config path) same ready
    | inr (none_left, why) ↦ absurd (ground arith)
  ]

  -- The logger that the first call makes has the configuration given.
  pub init-IsReady :
      (fs : FileSystem) (config : LoggerConfigFfi) (path : CString) (logger : LoggerThreadCtx)
      → paper2_init_logger_ffi std fs (some config) (some path) none ≡ returns true (some logger)
      → (text : Text) × IsReady fs (logger_config std config) text logger
  unfolding paper2_init_logger_ffi init_at converted_config
  init-IsReady fs config path logger e = elim (Option-cases (std.to_str path)) [
    | inl bad ↦ absurd (ground arith)
    | inr (text, good) ↦ (
      text,
      is_ok-IsReady fs (logger_config std config) text logger
          (sym (ap (λ o. init_at std fs (logger_config std config) o none) good) ∙ e),
    )
  ]

  -- A logger that is made from C keeps a size of its configuration exactly if it fits the machine's
  -- word.
  init-config_iff :
      (fs : FileSystem) (config : LoggerConfigFfi) (path : CString) (logger : LoggerThreadCtx)
      → paper2_init_logger_ffi std fs (some config) (some path) none ≡ returns true (some logger)
      → ((logger.config.max_string_len ≡ config.max_string_len)
          ↔ (config.max_string_len < 2 ^ std.usize_bits))
        × ((logger.config.log_max_buffer_count ≡ config.log_max_buffer_count)
            ↔ (config.log_max_buffer_count < 2 ^ std.usize_bits))
  unfolding logger_config
  init-config_iff fs config path logger e =
      let (text, ready) = init-IsReady fs config path logger e in
      rw ready.config (
        fits_iff config.max_string_len std.usize_bits,
        fits_iff config.log_max_buffer_count std.usize_bits,
      )

  -- If the limit given for a message's length is a multiple of two to the bits of the machine's word,
  -- the logging thread panics at the first entry: the thread takes the entries, and its next step ends it.
  pub wrapped_limit_panics :
      (crates : Crates) (laws : IsChunks crates.chunks) (fs : FileSystem) (config : LoggerConfigFfi)
      (path : CString) (logger : LoggerThreadCtx) (log : LogData) (logs : List LogData)
      → paper2_init_logger_ffi std fs (some config) (some path) none ≡ returns true (some logger)
      → config.max_string_len % 2 ^ std.usize_bits ≡ 0
      → (s : System) × (run crates (push (log ∷ logs) ∷ advance ∷ advance ∷ []) (start logger)
          ≡ some s)
        × (s.thread.pc ≡ panicked)
        × (s.took ≡ log ∷ logs)
  unfolding run perform start start_thread thread_step take_batch logger_config
  wrapped_limit_panics crates laws fs config path logger log logs e wraps =
      let (text, ready) = init-IsReady fs config path logger e in
      let queue : (push_logs logger (log ∷ logs)).log_queue ≡ log ∷ logs =
        ap (λ c. c.log_queue) (push_logs-eq (log ∷ logs) logger)
        ∙ ap (λ q. q ++ log ∷ logs) ready.new.queue in
      let limit : (push_logs logger (log ∷ logs)).config.max_string_len ≡ 0 =
        ap (λ c. c.config.max_string_len) (push_logs-eq (log ∷ logs) logger)
        ∙ ap (λ c. c.max_string_len) ready.config
        ∙ wraps in
      rw (queue, limit, split_str_into_chunks-zero laws log logs)
        (_, refl, refl, append-nil (log ∷ logs))
