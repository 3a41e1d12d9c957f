-- ===== src/Lib.antt =====
-- Paper: a logging library. Clients queue entries; one logging thread takes the queue in batches,
-- cuts the messages up and hands the pieces to its backends: the log files, the sinks and, on
-- Android, the system's log.
--
-- Which file models which part:
--   LogLevel           src/log_level.rs
--   LogData            src/logger/log_data.rs: entries and their three printed forms
--   Chunks             split_str_into_chunks of src/logger/logger_thread_ctx.rs
--   VecPool            src/vec_pool.rs, the pool of vectors that the thread swaps into the queue
--   Semaphore          src/semaphore_lite.rs, with any number of waiting threads
--   LoggerError        LoggerError of src/lib.rs
--   ContextPath        the path of a context's file (add_context)
--   LoggerThreadCtx    the state LoggerThreadCtx and each of its methods, LoggerConfig
--   FileLogger         src/logger/file_logger.rs
--   SinkLogger         src/logger/sink_logger.rs
--   Logcat             src/logger/logcat_logger.rs, both of its builds, and its direct calls
--   TracingLogger      src/logger/tracing_logger.rs
--   StdoutLogger       src/logger/stdout_logger.rs
--   Dispatch           do_log, log_data_to! and panic_hook of src/logger/logger_thread_ctx.rs
--   Backends           the same and the thread's loop over the backends, over all features of a build
--   Global             get_logger and init_logger of src/lib.rs
--   Ffi                src/ffi.rs and src/ffi/c_str_helper.rs, the interface for C
--   LogFacade          paper2_log/src/lib.rs
--   TracingFacade      paper2_tracing/src/lib.rs
--   Loader             scotland2/src/lib.rs, the start by the mod loader
--   LogThread          log_thread and the closure of init that runs it, as a step function
--   Protocol           the thread among its clients: what happens is a list of events
--   Delivered          the whole way of an entry, from a facade to the file and the sinks
-- Io, TextMap and Base are what these share: writers whose calls may fail, the map of context
-- files, lists, texts and tests. Tests has the data on which the theorems are run.
--
-- How state and operations correspond: a record has the fields of the struct, and a method is a
-- function of the same name from the state to the state, with what it returns; `Result` is an
-- Option of the error where it carries nothing. The two semaphores inside LoggerThreadCtx are
-- their flags. log_thread is cut at each lock it takes: `Pc` names the place between two locked
-- sections, with the locals that are live there, and `thread_step` runs one section. queue_log is
-- two events, the push and the signal, since the thread may run in between. A client's read
-- guard lasts from its first event to its last; the thread's sections under the write lock need that
-- there is no reader, and once it has asked for the lock no new reader enters. An entry is a list
-- of code points; the backend for Android has its UTF-8 form.
--
-- Bounds and fuel: the only fuel is that of the decimal printer, ten digits, which is what a u32 has
-- at most. Schedules are lists, so that every theorem on them is for runs of any length. That the logger
-- comes to an end of its work is said of every way in which the events left can follow each other
-- (`EndsBy` of Protocol.Delivery).
--
-- Parameters: itertools' `chunks` (with its documented behaviour as `IsChunks`), chrono's time
-- format, how far a vector grows, the outcome of every write, flush and creation of a file, the
-- replies of the sinks, std's decoding of UTF-8, and the installation of a logger or a subscriber by
-- the crates log and tracing_subscriber. parking_lot's lock is task-fair and its condition
-- variable has no spurious wakeups, as its documentation says.
--
-- LogThread, Protocol and Dispatch are the build with the features `file` and `sinks` for a target other
-- than Android. Backends has every feature and the order of the backends, for one call and for the
-- thread's loop; Backends.Thread is the thread over every feature, and Backends.Runs its schedules, for
-- the builds that have files. There, what a backend writes to is a list that grows: the calls of
-- Android's log, the standard output, the events of the tracing crate. Backends.Simulation,
-- Backends.Steps and Backends.Schedules compare the two levels; Backends.Calls has the calls of
-- Android's log, which may panic, and what keeps an entry from it.
--
-- Which builds compile (`compiles` of Backends): none with the feature stdout or tracing, whose modules
-- the loop of log_thread does not find, and no Android build with logcat and android-api-30, where an
-- import is missing. The code under these features is modelled as it is written, as if the names were
-- found, and is part of the lemmas; Backends.Compiled and Backends.Reached are about the builds that
-- compile; Backends.Schedules, Backends.Android and Backends.Panics hold for the others too. A failure in Loader
-- panics in a constructor that cannot unwind, so that std panics a second time there: both panics are
-- parameters, and the hook runs for each.
--
-- Not modelled: the capacity of the buffer for Android, the text of a backtrace and of a span trace
-- (arguments of the panic hook), and paper2_free_c_string, which only frees. questloader is a template
-- without code of its own; the build scripts generate bindings.
pub mod Base
pub mod LogLevel
pub mod Io
pub mod LogData
pub mod Chunks
pub mod VecPool
pub mod Semaphore
pub mod TextMap
pub mod LoggerError
pub mod ContextPath
pub mod LoggerThreadCtx
pub mod FileLogger
pub mod SinkLogger
pub mod Logcat
pub mod Dispatch
pub mod LogThread
pub mod TracingLogger
pub mod StdoutLogger
pub mod Backends
pub mod Loader
pub mod Delivered
pub mod Protocol
pub mod Global
pub mod Ffi
pub mod LogFacade
pub mod TracingFacade
pub mod Tests
