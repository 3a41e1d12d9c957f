-- ===== src/LoggerThreadCtx.antt =====
-- src/logger/logger_thread_ctx.rs, the shared state of the logger and the methods on it, with
-- LoggerConfig of src/logger/mod.rs. The queue's mutex and the two semaphores' flags are fields:
-- a method is one atomic step here, and paperlog.Protocol takes `queue_log` apart.
pub mod Flush
pub mod AnyOrder
use paperlog.Base.{
  ℕ, Bool, true, false, if◌then◌else◌, Text, codes, newline, List, [], ◌∷◌, ◌++◌, Option, none,
  some,
}
use paperlog.Io.{IoError, OutFile, Outcome, IoResult, flush_file, new_file}
use paperlog.LogLevel.{error}
use paperlog.LogData.{LogData, Instant, default}
use paperlog.LoggerError.{LoggerError, io_specific_error, already_initialized}
use paperlog.TextMap.{TextMap, insert, remove}
use paperlog.ContextPath.{context_path}

pub record LoggerConfig : Type 0 where
  pub max_string_len : ℕ  -- usize
  pub log_max_buffer_count : ℕ  -- usize
  pub line_end : ℕ  -- char
  pub context_log_path : Text

-- `LoggerConfig::default`
abbrev pub default_config : LoggerConfig
default_config = record {
  max_string_len = 1024;
  log_max_buffer_count = 100;
  line_end = newline;
  context_log_path = codes "./logs";
}

-- `Box<dyn LogCallback>`. A closure may keep state of its own: its answer is a function of the
-- calls it has had and of the present one, `none` for `Ok(())`.
pub record Sink : Type 0 where
  pub received : List LogData
  pub reply : List LogData → LogData → Option LoggerError

pub record LoggerThreadCtx : Type 0 where
  pub config : LoggerConfig
  pub log_queue : List LogData  -- log_queue.1, oldest first
  pub log_signal : Bool  -- the flag of log_queue.0
  pub flush_signal : Bool  -- the flag of flush_semaphore
  pub inited : Bool
  pub global_file : OutFile
  pub context_map : TextMap OutFile
  pub sinks : List Sink

pub data Result {ℓ} (A : Type ℓ) : Type ℓ where
  ok : A → Result A
  err : LoggerError → Result A

-- `?`: an error is passed on.
infixl 5 ◌>>=◌
abbrev pub ◌>>=◌ {ℓ κ} : {A : Type ℓ} {B : Type κ} → Result A → (A → Result B) → Result B
err failure >>= rest = err failure
ok value >>= rest = rest value

infixl 5 ◌>>◌
abbrev pub ◌>>◌ {ℓ} : {B : Type ℓ} → Result (Unit {0}) → Result B → Result B
first >> second = first >>= λ nothing. second

-- What the file system answers: to each directory asked for, and to `File::create`, whose file
-- comes with the outcomes of the writes to it.
pub data Created : Type 0 where
  created : List Outcome → Created
  refused : IoError → Created

pub record FileSystem : Type 0 where
  pub create_dir_all : Text → Option IoError
  pub create : Text → Created
  pub parent : Text → Option Text

-- `map_err` to an IoSpecificError with its context and path.
abbrev pub specific : Option IoError → Text → Text → Result (Unit {0})
specific none context path = ok tt
specific (some e) context path = err (io_specific_error e (some context) path)

abbrev pub opened : Created → Text → Text → Result OutFile
opened (created os) context path = ok (new_file os)
opened (refused e) context path = err (io_specific_error e (some context) path)

abbrev pub make_parent : FileSystem → Option Text → Result (Unit {0})
make_parent fs none = ok tt
make_parent fs (some parent) =
    specific (fs.create_dir_all parent) (codes "Unable to make logging directory for global") parent

-- `LoggerThreadCtx::new`
unfoldable pub new : FileSystem → LoggerConfig → Text → Result LoggerThreadCtx
new fs config log_path = do
  specific (fs.create_dir_all config.context_log_path)
      (codes "Unable to make logging directory for contexts") config.context_log_path
  make_parent fs (fs.parent log_path)
  global_file ← opened (fs.create log_path) (codes "Unable to create global file") log_path
  ok (record {
    config = config;
    log_queue = [];
    log_signal = false;
    flush_signal = false;
    inited = false;
    global_file = global_file;
    context_map = [];
    sinks = [];
  })

-- `init`, up to the start of the logging thread. The panic hook is process state: the result says
-- whether it was installed.
unfoldable pub init : LoggerThreadCtx → Bool → Result (LoggerThreadCtx × Bool)
init ctx install_panic_hook =
    if ctx.inited
    then err already_initialized
    else ok (record ctx { inited = true }, install_panic_hook)

-- The semaphores: `signal` sets the flag; a `wait` that returns clears it, and blocks (`none`)
-- while it is not set.
abbrev pub signal : Bool → Bool
signal flag = true

abbrev pub wait : Bool → Option Bool
wait true = some false
wait false = none

unfoldable pub push_log : LoggerThreadCtx → LogData → LoggerThreadCtx
push_log ctx log_data = record ctx { log_queue = ctx.log_queue ++ log_data ∷ [] }

unfoldable pub push_logs : LoggerThreadCtx → List LogData → LoggerThreadCtx
unfolding push_log
push_logs ctx [] = ctx
push_logs ctx (log ∷ logs) = push_logs (push_log ctx log) logs

unfoldable pub signal_log : LoggerThreadCtx → LoggerThreadCtx
signal_log ctx = record ctx { log_signal = signal ctx.log_signal }

unfoldable pub queue_log : LoggerThreadCtx → LogData → LoggerThreadCtx
unfolding push_log signal_log
queue_log ctx log_data = signal_log (push_log ctx log_data)

unfoldable pub queue_logs : LoggerThreadCtx → List LogData → LoggerThreadCtx
unfolding push_logs signal_log
queue_logs ctx logs = signal_log (push_logs ctx logs)

-- A place in the source, `file!()`, `line!()` and `column!()`.
pub record Location : Type 0 where
  pub file : Text
  pub line : ℕ
  pub column : ℕ

-- `backtrace`, with the backtrace that was captured, printed.
unfoldable pub backtrace : LoggerThreadCtx → Instant → Location → Text → Result LoggerThreadCtx
unfolding queue_log
backtrace ctx now here backtrace_str = ok (
    queue_log ctx (record (default now) {
      level = error;
      tag = none;
      message = backtrace_str;
      file = here.file;
      line = here.line;
      column = here.column;
      function_name = none;
    }))

unfoldable pub add_context : FileSystem → LoggerThreadCtx → Text → Result LoggerThreadCtx
add_context fs ctx tag =
    let log_path = context_path ctx.config.context_log_path tag in
    do
      file ← opened (fs.create log_path) (codes "Unable to create context file") log_path
      ok (record ctx { context_map = insert tag file ctx.context_map })

unfoldable pub remove_context : LoggerThreadCtx → Text → LoggerThreadCtx
remove_context ctx tag = record ctx { context_map = remove tag ctx.context_map }

unfoldable pub add_sink : LoggerThreadCtx → Sink → LoggerThreadCtx
add_sink ctx sink = record ctx { sinks = ctx.sinks ++ sink ∷ [] }

-- `values_mut().try_for_each(flush)`: the first error ends it.
unfoldable pub flush_all : TextMap OutFile → TextMap OutFile × IoResult
flush_all [] = ([], none)
flush_all (e ∷ m) =
    let (m', r') = flush_all m in
    let (f, r) = flush_file e.value in
    elim r [
      | none ↦ (record e { value = f } ∷ m', r')
      | some failed ↦ (record e { value = f } ∷ m, some failed)
    ]

-- The flush semaphore is signalled only when every file was flushed.
unfoldable pub flush : LoggerThreadCtx → LoggerThreadCtx × IoResult
unfolding flush_all
flush ctx =
    let (g, r) = flush_file ctx.global_file in
    let (m, r') = flush_all ctx.context_map in
    elim r [
      | some failed ↦ (record ctx { global_file = g }, some failed)
      | none ↦ elim r' [
        | some failed ↦ (record ctx { global_file = g; context_map = m }, some failed)
        | none ↦ (
          record ctx { global_file = g; context_map = m; flush_signal = signal ctx.flush_signal },
          none,
        )
      ]
    ]

-- `wait_for_flush`; `none` while it blocks. The flag that it waits for is the one of the queue.
unfoldable pub wait_for_flush : LoggerThreadCtx → Option LoggerThreadCtx
wait_for_flush ctx = elim (wait ctx.log_signal) [
  | none ↦ none
  | some flag ↦ some (record ctx { log_signal = flag })
]

-- `wait_for_flush_timeout` returns in any case: at once if the flag is set, and if it is not set
-- until the time is up, then with nothing changed.
unfoldable pub wait_for_flush_timeout : LoggerThreadCtx → LoggerThreadCtx
wait_for_flush_timeout ctx = elim (wait ctx.log_signal) [
  | none ↦ ctx
  | some flag ↦ record ctx { log_signal = flag }
]
