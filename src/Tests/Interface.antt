-- ===== src/Tests/Interface.antt =====
-- Calls of the C interface and of the two facades.
use paperlog.Base.{
  subst, ap, ◌+◌, ◌≡◌, ◌≢◌, ◌↔◌, ◌⊎◌, refl, inl, true, if◌then◌else◌, Text, text_eq, codes, [], ◌∷◌,
  map, none, some, List, false, arith, count, unwrap_or,
}
use paperlog.TextMap.{get}
use paperlog.Logcat.{utf8}
use paperlog.LoggerThreadCtx.{LoggerThreadCtx, FileSystem, created, default_config, Location}
use paperlog.Global.{init_logger}
use paperlog.Global.Laws.{IsReady, Fails, init_logger-IsReady}
use paperlog.Ffi.{Std, returns, paper2_register_context_id, paper2_unregister_context_id, aborts}
use paperlog.Ffi.Calls.{register-unregister}
use paperlog.LogFacade
use paperlog.LogFacade.Laws.{Passes, log-drops}
use paperlog.TracingFacade
use paperlog.TracingFacade.{PaperLayer, layer_of, message_of, visit, record_field}
use paperlog.TracingFacade.Laws.{shown, join_with, visit-join_with, on_event-panics_iff}
use paperlog.LogThread.Health.{Healthy}
use paperlog.Protocol.{System, Event, push, signals, perform, run, start}
use paperlog.Protocol.Record.{IsNew}
use paperlog.Delivered.{Delivers, log-Delivers, on_event-Delivers}
use paperlog.LoggerThreadCtx.{push_logs, signal_log}
use paperlog.Tests.Data.{chunks-IsChunks, crates, plain, ctx}

-- Reads ASCII.
abbrev pub std : Std
std = record { to_str = λ b. some b; to_string_lossy = λ b. b; usize_bits = 32 }

-- A disk on which all goes well.
abbrev pub fs : FileSystem
fs = record {
  create_dir_all = λ p. none;
  create = λ p. created [];
  parent = λ p. some (codes "/log");
}

abbrev pub path : Text
path = codes "/log/p.log"

init_logger-IsReady_example :
    ((c : LoggerThreadCtx) × (init_logger fs default_config path none ≡ some c)
      × IsReady fs default_config path c)
    ⊎ ((init_logger fs default_config path none ≡ none) × Fails fs default_config path)
init_logger-IsReady_example = init_logger-IsReady fs default_config path

abbrev here : Location
here = record { file = codes "ffi.rs"; line = 108; column = 21 }

abbrev ready : LoggerThreadCtx
ready = record ctx { inited = true; context_map = []; sinks = [] }

register-unregister_example :
    (middle after : LoggerThreadCtx) × (paper2_register_context_id std fs 3 here
        (some (codes "B"))
        (some ctx)
      ≡ returns tt (some middle))
    × (paper2_unregister_context_id std (some (codes "B")) (some middle) ≡ returns tt (some after))
    × ((k : Text)
        → get k after.context_map ≡ (if text_eq (codes "B") k then none else get k ctx.context_map))
    × (after.log_queue ≡ ctx.log_queue)
register-unregister_example = register-unregister std fs 3 here (codes "B") ctx [] refl

abbrev record_ : LogFacade.Record
record_ = record {
  level = LogFacade.trace;
  args = codes "hello";
  module_path = some (codes "app::net");
  file = some (codes "net.rs");
  line = some 4000000000;
}

path-Passes : Passes std (codes "app::net")
unfolding utf8
path-Passes = record { no_nul = refl; decoded = refl }

file-Passes : Passes std (codes "net.rs")
unfolding utf8
file-Passes = record { no_nul = refl; decoded = refl }

args-Passes : Passes std (codes "hello")
unfolding utf8
args-Passes = record { no_nul = refl; decoded = refl }

trace_on : LogFacade.enabled (LogFacade.up_to LogFacade.trace) LogFacade.trace ≡ true
unfolding LogFacade.enabled
trace_on = refl

-- An entry is queued before the facades are called.
abbrev begun : List Event
begun = push (plain ∷ []) ∷ signals ∷ []

abbrev busy : System
busy = record (start ready) {
  ctx = record ready { log_queue = plain ∷ []; log_signal = true };
  queued = plain ∷ [];
}

begun_lem : (run crates begun (start ready) ≡ some busy) × (busy.requested ≡ false)
unfolding run perform push_logs signal_log start
begun_lem = (refl, refl)

ready-IsNew : IsNew ready
ready-IsNew = record { queue = refl; file = refl }

ready-Healthy : Healthy ready
ready-Healthy = record {
  files = record { global = refl; contexts = tt };
  sinks = tt;
  limit = omega arith;
}

log-Delivers_example :
    (after : LoggerThreadCtx) × (LogFacade.log std 3
        (LogFacade.up_to LogFacade.trace)
        record_
        (some busy.ctx)
      ≡ returns tt (some after))
    × Delivers crates 1024 0
        (record {
          level = LogFacade.map_level LogFacade.trace;
          tag = some (codes "app::net");
          message = codes "hello";
          timestamp = 3;
          file = codes "net.rs";
          line = 4000000000;
          column = 0;
          function_name = some (codes "app::net");
        })
        busy
        after
log-Delivers_example =
    log-Delivers crates chunks-IsChunks ready begun busy ready-IsNew ready-Healthy tt (tt, (tt, tt))
      begun_lem.0 begun_lem.1 std 3 (LogFacade.up_to LogFacade.trace) record_ (codes "app::net")
      (codes "net.rs") trace_on refl refl refl path-Passes file-Passes args-Passes (omega arith)

abbrev no_file : LogFacade.Record
no_file = record record_ { file = none }

log-drops_example :
    LogFacade.log std 3 (LogFacade.up_to LogFacade.trace) no_file (some ready)
    ≡ returns tt (some ready)
log-drops_example =
    log-drops std 3 (LogFacade.up_to LogFacade.trace) no_file (some ready) (inl refl)

abbrev event : TracingFacade.TracingEvent
event = record {
  level = TracingFacade.info;
  target = codes "app";
  file = none;
  line = none;
  fields =
      record { name = codes "message"; value = codes "hi" }
      ∷ record { name = codes "n"; value = codes "3" }
      ∷ [];
}

visit-join_with_example :
    TracingFacade.visit [] event.fields ≡ join_with (codes " ") (map shown event.fields)
visit-join_with_example = visit-join_with event.fields

tag-Passes : Passes std (codes "core")
unfolding utf8
tag-Passes = record { no_nul = refl; decoded = refl }

target-Passes : Passes std event.target
unfolding utf8
target-Passes = record { no_nul = refl; decoded = refl }

message-Passes : Passes std (message_of event)
unfolding utf8 message_of visit record_field
message-Passes = record { no_nul = refl; decoded = refl }

none-Passes : Passes std []
unfolding utf8
none-Passes = record { no_nul = refl; decoded = refl }

on_event-Delivers_example :
    (layer : PaperLayer) × (after : LoggerThreadCtx) × (layer_of (some (codes "core")) ≡ some layer)
    × (TracingFacade.on_event std 3 layer event (some busy.ctx) ≡ returns tt (some after))
    × Delivers crates 1024 0
        (record {
          level = TracingFacade.map_level TracingFacade.info;
          tag = some (codes "core");
          message = message_of event;
          timestamp = 3;
          file = [];
          line = 0;
          column = 0;
          function_name = some (codes "app");
        })
        busy
        after
on_event-Delivers_example =
    on_event-Delivers crates chunks-IsChunks ready begun busy ready-IsNew ready-Healthy tt
      (tt, (tt, tt)) begun_lem.0 begun_lem.1 std 3 (some (codes "core")) event
      (λ t e. subst (Passes std) (ap (λ o. unwrap_or o t) e) tag-Passes) target-Passes
      message-Passes none-Passes (omega arith)

on_event-panics_iff_example :
    (TracingFacade.on_event std 3 (record { tag = none }) event none ≡ aborts) ↔ (
      count 0 event.target
        + count 0 (TracingFacade.message_of event)
        + count 0 (unwrap_or event.file [])
      ≢ 0)
on_event-panics_iff_example = on_event-panics_iff std 3 (record { tag = none }) event none
