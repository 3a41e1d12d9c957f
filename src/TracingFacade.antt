-- ===== src/TracingFacade.antt =====
-- paper2_tracing/src/lib.rs: events of the `tracing` crate go through the C interface into the
-- queue. A value that a visitor is shown is the text that it prints as, by `{}` or `{:?}`. A call that
-- panics is `aborts` here.
pub mod Laws
use paperlog.Base.{
  ℕ, ◌==◌, ◌&&◌, Bool, true, false, if◌then◌else◌, is_empty, Text, codes, count, List, [], ◌∷◌,
  ◌++◌, Option, none, some, unwrap_or, pos, as_i32,
}
use paperlog.LogLevel
use paperlog.LogData.{Instant}
use paperlog.Logcat.{utf8}
use paperlog.Global.{Global}
use paperlog.LogFacade.{c_string_new}
use paperlog.Ffi.{Std, CString, Call, returns, waits, aborts, paper2_queue_log_ffi}

-- `tracing::Level`
pub data Level : Type 0 where
  error warn info debug trace : Level

pub record Field : Type 0 where
  pub name : Text
  pub value : Text

-- `tracing::Event`, with its metadata.
pub record TracingEvent : Type 0 where
  pub level : Level
  pub target : Text
  pub file : Option Text
  pub line : Option ℕ  -- u32
  pub fields : List Field

unfoldable pub map_level : Level → LogLevel.LogLevel
map_level error = LogLevel.error
map_level warn = LogLevel.warn
map_level info = LogLevel.info
map_level debug = LogLevel.debug
map_level trace = LogLevel.debug

-- The six methods of the visitor do the same.
unfoldable pub record_field : Text → Field → Text
record_field parts field =
    (if is_empty parts then parts else parts ++ codes " ") ++ field.name ++ codes "=" ++ field.value

-- `event.record(&mut visitor)` shows it each field in turn.
unfoldable pub visit : Text → List Field → Text
visit parts [] = parts
visit parts (field ∷ fields) = visit (record_field parts field) fields

-- `PaperLayer`
pub record PaperLayer : Type 0 where
  pub tag : Option CString

-- `PaperLayer::with_tag`; `none` where it panics on a NUL.
unfoldable pub with_tag : Text → Option PaperLayer
with_tag tag = elim (c_string_new tag) [ none ↦ none | some c ↦ some (record { tag = some c }) ]

-- `PaperLayer::new`
unfoldable pub new : PaperLayer
new = record { tag = none }

-- The layer that `init_paper_tracing` makes.
unfoldable pub layer_of : Option Text → Option PaperLayer
layer_of none = some new
layer_of (some tag) = with_tag tag

pub data Installed (D : Type 0) : Type 0 where
  installed : D → Installed D
  refused : Installed D  -- the TryInitError
  panicked : Installed D

-- `try_init` is that of tracing_subscriber, on the process's dispatcher.
module _ {D : Type 0} (try_init : PaperLayer → D → Option D) where
  after_try : Option D → Installed D
  after_try none = refused
  after_try (some dispatcher) = installed dispatcher

  install : Option PaperLayer → D → Installed D
  unfolding after_try
  install none dispatcher = panicked
  install (some layer) dispatcher = after_try (try_init layer dispatcher)

  unfoldable pub init_paper_tracing : Option Text → D → Installed D
  unfolding install
  init_paper_tracing tag dispatcher = install (layer_of tag) dispatcher

unfoldable pub message_of : TracingEvent → Text
message_of event =
    let parts = visit [] event.fields in if is_empty parts then event.target else parts

module _ (std : Std) where
  ignored : Call Bool → Call (Unit {0})
  ignored (returns b global) = returns tt global
  ignored waits = waits
  ignored aborts = aborts

  -- With the three C strings, where each was made.
  queue_event :
      Instant
      → PaperLayer
      → TracingEvent
      → (function_name message file : Option CString) → Global
      → Call (Unit {0})
  unfolding ignored
  queue_event now layer event (some function_name) (some message) (some file) global = ignored (
      paper2_queue_log_ffi std now (map_level event.level) layer.tag (some message) (some file)
        (as_i32 (unwrap_or event.line 0)) (pos 0) (some function_name) global)
  queue_event now layer event _ _ _ global = aborts

  -- `on_event`
  unfoldable pub on_event : Instant → PaperLayer → TracingEvent → Global → Call (Unit {0})
  unfolding queue_event message_of
  on_event now layer event global =
      queue_event now layer event (c_string_new event.target) (c_string_new (message_of event))
        (c_string_new (unwrap_or event.file [])) global
