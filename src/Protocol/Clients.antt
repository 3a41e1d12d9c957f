-- ===== src/Protocol/Clients.antt =====
-- The events by their clients: what kind a call is, and what it leaves alone.
use paperlog.Base.{sym, append-nil, ◌++◌, ◌≡◌, refl, List, [], ◌∷◌, arith, Text, All-append}
use paperlog.Io.{Outcome, Sound, new_file}
use paperlog.TextMap.{AllValues-insert, AllValues-remove}
use paperlog.ContextPath.{context_path}
use paperlog.LogData.{LogData}
use paperlog.LoggerThreadCtx.{
  LoggerThreadCtx, Sink, created, refused, Created, FileSystem, add_context, remove_context,
  add_sink,
}
use paperlog.LogThread.Health.{Willing, Healthy}
use paperlog.Protocol.{Event, push, begin_wait, begin_timed, adds_context, adds_sink, after_context}

-- An event by which a client begins to wait for a flush.
abbrev pub Waits : Event → Type 0
Waits begin_wait = Unit
Waits begin_timed = Unit
Waits _ = ⊥

-- An event by which a client queues entries.
abbrev pub Pushes : Event → Type 0
Pushes (push logs) = Unit
Pushes _ = ⊥

-- An event by which a client queues these entries.
abbrev pub Queues : Event → List LogData → Type 0
Queues (push logs) queued = logs ≡ queued
Queues _ queued = ⊥

pub Queues-Pushes : (e : Event) (logs : List LogData) → Queues e logs → Pushes e
Queues-Pushes (push logs) queued q = tt
Queues-Pushes _ queued q = absurd q

-- An event after which a healthy logger is healthy: no client waits for a flush, the files that it
-- opens and the sinks that it adds do not fail.
abbrev pub Fair : Event → Type 0
Fair begin_wait = ⊥
Fair begin_timed = ⊥
Fair (adds_context fs tag) =
    (path : Text) (os : List Outcome) → fs.create path ≡ created os → os ≡ []
Fair (adds_sink sink) = Willing sink
Fair _ = Unit

-- A client's call changes neither the queue nor its semaphore nor the global file; it may add sinks.
pub record Outside (before after : LoggerThreadCtx) : Type 0 where
  pub config : after.config ≡ before.config
  pub queue : after.log_queue ≡ before.log_queue
  pub signal : after.log_signal ≡ before.log_signal
  pub file : after.global_file ≡ before.global_file
  pub inited : after.inited ≡ before.inited
  pub sinks : (more : List Sink) × (after.sinks ≡ before.sinks ++ more)

pub add_context-Outside :
    (fs : FileSystem) (ctx : LoggerThreadCtx) (tag : Text)
    → Outside ctx (after_context ctx (add_context fs ctx tag))
unfolding add_context
add_context-Outside fs ctx tag = record {
  config = ground arith;
  inited = ground arith;
  queue = ground arith;
  signal = ground arith;
  file = ground arith;
  sinks = ([], ground (arith, append-nil ctx.sinks));
}

pub add_context-Healthy :
    (fs : FileSystem) (ctx : LoggerThreadCtx) (tag : Text)
    → Fair (adds_context fs tag)
    → Healthy ctx
    → Healthy (after_context ctx (add_context fs ctx tag))
unfolding add_context
add_context-Healthy fs ctx tag fair h =
    by_created (fs.create (context_path ctx.config.context_log_path tag)) refl
  where
    by_created :
        (c : Created)
        → fs.create (context_path ctx.config.context_log_path tag) ≡ c
        → Healthy (after_context ctx (add_context fs ctx tag))
    by_created (refused e) made = rw (made, add_context) h
    by_created (created os) made =
        rw (made, add_context)
          (record {
            files = record {
              global = h.files.global;
              contexts =
                  AllValues-insert Sound tag (new_file os) ctx.context_map h.files.contexts
                    (fair _ os made);
            };
            sinks = h.sinks;
            limit = h.limit;
          })

pub remove_context-Outside :
    (ctx : LoggerThreadCtx) (tag : Text) → Outside ctx (remove_context ctx tag)
unfolding remove_context
remove_context-Outside ctx tag = record {
  sinks = ([], sym (append-nil ctx.sinks));
  config = refl;
  inited = refl;
  queue = refl;
  signal = refl;
  file = refl;
}

pub add_sink-Outside : (ctx : LoggerThreadCtx) (sink : Sink) → Outside ctx (add_sink ctx sink)
unfolding add_sink
add_sink-Outside ctx sink = record {
  sinks = (sink ∷ [], refl);
  config = refl;
  inited = refl;
  queue = refl;
  signal = refl;
  file = refl;
}

pub remove_context-Healthy :
    (ctx : LoggerThreadCtx) (tag : Text) → Healthy ctx → Healthy (remove_context ctx tag)
unfolding remove_context
remove_context-Healthy ctx tag h = record {
  files = record {
    global = h.files.global;
    contexts = AllValues-remove Sound tag ctx.context_map h.files.contexts;
  };
  sinks = h.sinks;
  limit = h.limit;
}

pub add_sink-Healthy :
    (ctx : LoggerThreadCtx) (sink : Sink) → Willing sink → Healthy ctx → Healthy (add_sink ctx sink)
unfolding add_sink
add_sink-Healthy ctx sink willing h = record {
  files = record { global = h.files.global; contexts = h.files.contexts };
  sinks = All-append Willing ctx.sinks (sink ∷ []) h.sinks (willing, tt);
  limit = h.limit;
}
