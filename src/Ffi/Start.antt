-- ===== src/Ffi/Start.antt =====
-- A logger made by src/ffi.rs, from its start on.
use paperlog.Base.{
  ◌<◌, ◌^◌, ◌%◌, ◌≡◌, ap, ◌∙◌, subst, true, Text, List, [], length, none, some, All,
}
use paperlog.Io.{Outcome}
use paperlog.Chunks.{IsChunks}
use paperlog.LoggerThreadCtx.{LoggerThreadCtx, FileSystem, created}
use paperlog.LogThread.{Crates}
use paperlog.LogThread.Health.{Healthy}
use paperlog.Protocol.{System, Event, run, start}
use paperlog.Protocol.Clients.{Fair}
use paperlog.Protocol.Complete.{Done, run-Done}
use paperlog.Protocol.Delivery.{Ends}
use paperlog.Global.Laws.{IsReady}
use paperlog.Ffi.{Std, CString, LoggerConfigFfi, returns, paper2_init_logger_ffi, logger_config}
use paperlog.Ffi.Config.{init-IsReady}

-- On this disk no write to a file fails once the file was made.
abbrev pub IsSoundDisk : FileSystem → Type 0
IsSoundDisk fs = (path : Text) (os : List Outcome) → fs.create path ≡ created os → os ≡ []

module _ (std : Std) (fs : FileSystem) (config : LoggerConfigFfi) (path : CString)
    (logger : LoggerThreadCtx) where
  ready-Healthy :
      (text : Text)
      → IsReady fs (logger_config std config) text logger
      → IsSoundDisk fs
      → 0 < config.max_string_len % 2 ^ std.usize_bits
      → Healthy logger
  unfolding logger_config
  ready-Healthy text ready sound positive = record {
    files = record {
      global = ap (λ f. f.outcomes) ready.file ∙ sound text ready.outcomes ready.made;
      contexts = rw ready.contexts tt;
    };
    sinks = rw ready.sinks tt;
    limit = rw ready.config positive;
  }

  -- From a call of `paper2_init_logger_ffi` that returns true, on a disk where no write fails, with a
  -- limit for a message's length that is not a multiple of two to the bits of the machine's word: after
  -- any schedule of fair events, if no client makes a new call, the calls under way and the thread always
  -- come to an end after finitely many events, in whatever order these happen, and as long as they have
  -- not, one can happen. At the end the logger is quiet, and the file holds exactly what all the entries
  -- queued print, cut up by that limit in the machine's word, in order and once each, all of it flushed.
  pub init-Done :
      (crates : Crates) (laws : IsChunks crates.chunks) (es : List Event) (s : System)
      → paper2_init_logger_ffi std fs (some config) (some path) none ≡ returns true (some logger)
      → IsSoundDisk fs
      → 0 < config.max_string_len % 2 ^ std.usize_bits
      → All Fair es
      → run crates es (start logger) ≡ some s
      → Ends crates (Done crates (config.max_string_len % 2 ^ std.usize_bits) 0 s) s
  unfolding logger_config
  init-Done crates laws es s made sound positive fair ran =
      let (text, ready) = init-IsReady std fs config path logger made in
      let limit : logger.config.max_string_len ≡ config.max_string_len % 2 ^ std.usize_bits =
        ap (λ c. c.max_string_len) ready.config in
      let none_yet : length logger.sinks ≡ 0 = ap length ready.sinks in
      subst (λ n. Ends crates (Done crates n 0 s) s) limit
        (subst (λ k. Ends crates (Done crates logger.config.max_string_len k s) s) none_yet
          (run-Done crates laws logger es s ready.new (ready-Healthy text ready sound positive)
            (rw ready.sinks tt) fair ran))
