-- ===== src/Delivered.antt =====
-- The whole way of an entry, from a call in a program that uses one of the facades (paper2_log/src/lib.rs,
-- paper2_tracing/src/lib.rs) over the C interface and the queue to the file and the sinks.
use paperlog.Base.{
  ℕ, ◌≡◌, ◌<◌, ◌^◌, refl, ap, ◌∙◌, subst, true, false, Text, concat, map, concat-append, List, [],
  ◌∷◌, ◌++◌, length, Option, some, All, All-append, unwrap_or,
}
use mathlib.Core.List.{map-append}
use paperlog.LogData.{LogData, Instant, full_line}
use paperlog.Chunks.{IsChunks, split_str_into_chunks}
use paperlog.Chunks.Laws.{split_str_into_chunks-some}
use paperlog.LoggerThreadCtx.{LoggerThreadCtx, queue_log}
use paperlog.LogThread.{Crates, waiting}
use paperlog.LogThread.Health.{Healthy}
use paperlog.LogThread.Idle.{IsFlushed}
use paperlog.LogThread.Sinks.{HandedTo}
use paperlog.LogThread.Written.{Printed}
use paperlog.Protocol.{System, Event, push, signals, run, start}
use paperlog.Protocol.Clients.{Fair}
use paperlog.Protocol.Handing.{Unused}
use paperlog.Protocol.Quiet.{IsQuiet}
use paperlog.Protocol.Inited.{run-inited}
use paperlog.Protocol.Record.{IsNew}
use paperlog.Protocol.Schedules.{run-append}
use paperlog.Protocol.Delivery.{Ends, Ends-mono}
use paperlog.Protocol.Complete.{Done, run-Done}
use paperlog.Ffi.{Std, returns}
use paperlog.Ffi.Calls.{queue_log-events}
use paperlog.TracingFacade
use paperlog.TracingFacade.{PaperLayer, layer_of, message_of}
use paperlog.TracingFacade.Laws.{on_event-queues}
use paperlog.LogFacade
use paperlog.LogFacade.Laws.{Passes, log-queues}

module _ (crates : Crates) where
  open crates use {chunks, format_time}

  -- Behind the entries queued up to `s`, the entry stands in the file, and it was handed to the sinks.
  pub record Appears (n k : ℕ) (log : LogData) (s u : System) : Type 0 where
    pub pieces : List LogData
    pub cut : split_str_into_chunks chunks (log ∷ []) n ≡ some pieces
    pub before : Text
    pub earlier : Printed crates n s.queued before
    pub text : u.ctx.global_file.text ≡ before ++ concat (map (full_line format_time) pieces)
    pub flushed : IsFlushed u.ctx
    pub quiet : IsQuiet u
    pub handed : HandedTo crates n k waiting (s.queued ++ log ∷ []) u.ctx.sinks

  Done-Appears :
      (n k : ℕ) (log : LogData) (s t u : System)
      → t.queued ≡ s.queued ++ log ∷ []
      → Done crates n k t u
      → Appears n k log s u
  Done-Appears n k log s t u queued d =
      let (out, cut, has) =
        subst (λ q. Printed crates n q u.ctx.global_file.text) queued d.printed in
      let (first, second, cut1, cut2, both) =
        split_str_into_chunks-some chunks n s.queued (log ∷ []) out cut in
      record {
        pieces = second;
        cut = cut2;
        before = concat (map (full_line format_time) first);
        earlier = (first, cut1, refl);
        text =
            has
            ∙ ap (λ l. concat (map (full_line format_time) l)) both
            ∙ ap concat (map-append (full_line format_time) first second)
            ∙ concat-append (map (full_line format_time) first)
                (map (full_line format_time) second);
        flushed = d.flushed;
        quiet = d.quiet;
        handed = subst (λ q. HandedTo crates n k waiting q u.ctx.sinks) queued d.handed;
      }

  -- A call that leaves `after`: it queues the entry and signals, and from there the calls under way and
  -- the thread alone always bring the entry to its files and sinks.
  pub record Delivers (n k : ℕ) (log : LogData) (s : System) (after : LoggerThreadCtx)
      : Type 0 where
    pub called : System
    pub ran : run crates (push (log ∷ []) ∷ signals ∷ []) s ≡ some called
    pub left : called.ctx ≡ after
    pub appears : Ends crates (Appears n k log s) called

  module _ (laws : IsChunks chunks) (ctx : LoggerThreadCtx) (es : List Event) (s : System)
      (new : IsNew ctx) (healthy : Healthy ctx) (unused : All Unused ctx.sinks) (fair : All Fair es)
      (ran : run crates es (start ctx) ≡ some s) (free : s.requested ≡ false) where
    queue_log-Delivers :
        (log : LogData)
        → Delivers ctx.config.max_string_len (length ctx.sinks) log s (queue_log s.ctx log)
    queue_log-Delivers log =
        let n = ctx.config.max_string_len in
        let k = length ctx.sinks in
        let t : System = record s { ctx = queue_log s.ctx log; queued = s.queued ++ log ∷ [] } in
        let called = queue_log-events crates s log free in
        let calls = push (log ∷ []) ∷ signals ∷ [] in
        record {
          called = t;
          ran = called;
          left = refl;
          appears =
              Ends-mono crates (Done crates n k t) (Appears n k log s)
                (λ u done. Done-Appears n k log s t u refl done) t
                (run-Done crates laws ctx (es ++ calls) t new healthy unused
                  (All-append Fair es calls fair (tt, (tt, tt)))
                  (run-append crates es calls (start ctx) s ran ∙ called));
        }

    module _ (std : Std) where
      -- From a new, healthy logger that is marked as initialised and whose sinks have had nothing, after
      -- any schedule of fair events at whose end the logging thread does not wait for the write lock: a
      -- call of the log crate's facade with a record that is enabled, has a module path and a file,
      -- whose texts pass through C strings and whose line is a u32, queues its entry. If from there no
      -- client makes a new call, the calls under way and the thread always come to an end after
      -- finitely many events, in whatever order these happen, in a quiet state in which the file ends
      -- with the lines of the entry's pieces, behind all that was queued before, is flushed, and each
      -- sink of the start has had exactly the pieces of all entries.
      pub log-Delivers :
          (now : Instant) (max_level : LogFacade.LevelFilter) (r : LogFacade.Record)
          (path file : Text)
          → LogFacade.enabled max_level r.level ≡ true
          → ctx.inited ≡ true
          → r.module_path ≡ some path
          → r.file ≡ some file
          → Passes std path
          → Passes std file
          → Passes std r.args
          → unwrap_or r.line 0 < 2 ^ 32
          → (after : LoggerThreadCtx) × (LogFacade.log std now max_level r (some s.ctx)
              ≡ returns tt (some after))
            × Delivers ctx.config.max_string_len
                (length ctx.sinks)
                (record {
                  level = LogFacade.map_level r.level;
                  tag = some path;
                  message = r.args;
                  timestamp = now;
                  file = file;
                  line = unwrap_or r.line 0;
                  column = 0;
                  function_name = some path;
                })
                s
                after
      log-Delivers now max_level r path file on inited has_path has_file p f a small = (
        queue_log s.ctx _,
        log-queues std now max_level r s.ctx path file on
            (run-inited crates ctx es s new ran ∙ inited) has_path has_file p f a small,
        queue_log-Delivers _,
      )

      -- From a new, healthy logger whose sinks have had nothing, after any schedule of fair events at
      -- whose end the logging thread does not wait for the write lock: with the layer that
      -- `init_paper_tracing` makes for a tag, an event of the tracing crate whose texts pass through C
      -- strings and whose line is a u32 queues its entry. If from there no client makes a new call, the
      -- calls under way and the thread always come to an end after finitely many events, in whatever
      -- order these happen, in a quiet state in which the file ends with the lines of the entry's
      -- pieces, behind all that was queued before, is flushed, and each sink of the start has had
      -- exactly the pieces of all entries.
      pub on_event-Delivers :
          (now : Instant) (tag : Option Text) (event : TracingFacade.TracingEvent)
          → ((t : Text) → tag ≡ some t → Passes std t)
          → Passes std event.target
          → Passes std (message_of event)
          → Passes std (unwrap_or event.file [])
          → unwrap_or event.line 0 < 2 ^ 32
          → (layer : PaperLayer) × (after : LoggerThreadCtx) × (layer_of tag ≡ some layer)
            × (TracingFacade.on_event std now layer event (some s.ctx) ≡ returns tt (some after))
            × Delivers ctx.config.max_string_len
                (length ctx.sinks)
                (record {
                  level = TracingFacade.map_level event.level;
                  tag = tag;
                  message = message_of event;
                  timestamp = now;
                  file = unwrap_or event.file [];
                  line = unwrap_or event.line 0;
                  column = 0;
                  function_name = some event.target;
                })
                s
                after
      on_event-Delivers now tag event passes target message file small =
          let (layer, made, queues) =
            on_event-queues std now tag event s.ctx passes target message file small in
          (layer, queue_log s.ctx _, made, queues, queue_log-Delivers _)
