-- ===== src/TracingFacade/Laws.antt =====
-- The message of an event, and when the layer panics.
use paperlog.Base.{
  as_u32, as_u32-as_i32, Option, some, none, ◌<◌, ◌^◌, ◌+◌, ◌≡◌, ◌≢◌, ◌↔◌, refl, ap, ◌∙◌, false,
  is_empty, Text, codes, count, List, [], ◌∷◌, ◌++◌, map, append_assoc, unwrap_or, arith,
}
use paperlog.LogData.{Instant}
use paperlog.Global.{Global}
use paperlog.LoggerThreadCtx.{LoggerThreadCtx, queue_log}
use paperlog.Logcat.{utf8}
use paperlog.LogFacade.{c_string_new}
use paperlog.LogFacade.Laws.{Passes, encodes}
use paperlog.Ffi.{Std, aborts, returns, paper2_queue_log_ffi}
use paperlog.TracingFacade.{
  Field, TracingEvent, PaperLayer, record_field, visit, message_of, map_level, layer_of, with_tag,
  new, ignored, queue_event, on_event,
}

abbrev pub shown : Field → Text
shown field = field.name ++ codes "=" ++ field.value

-- Texts with a separator between each two.
abbrev pub join_with : Text → List Text → Text
join_with sep [] = []
join_with sep (t ∷ []) = t
join_with sep (t ∷ u ∷ ts) = t ++ sep ++ join_with sep (u ∷ ts)

shown-not-empty : (s t : Text) → is_empty (s ++ codes "=" ++ t) ≡ false
shown-not-empty [] t = refl
shown-not-empty (c ∷ s) t = refl

append-not-empty : (s t : Text) → is_empty t ≡ false → is_empty (s ++ t) ≡ false
append-not-empty [] t h = h
append-not-empty (c ∷ s) t h = refl

record-behind :
    (parts : Text) (field : Field)
    → is_empty parts ≡ false
    → record_field parts field ≡ parts ++ codes " " ++ shown field
unfolding record_field
record-behind parts field h = rw h (simp append_assoc refl)

-- A visitor that already has a text puts every field behind a space.
visit-behind :
    (parts : Text) (field : Field) (fields : List Field)
    → is_empty parts ≡ false
    → visit parts (field ∷ fields)
      ≡ parts ++ codes " " ++ join_with (codes " ") (map shown (field ∷ fields))
unfolding visit
visit-behind parts field [] h = record-behind parts field h
visit-behind parts field (f ∷ fs) h =
    let more : is_empty (record_field parts field) ≡ false =
      ap is_empty (record-behind parts field h)
      ∙ append-not-empty (parts ++ codes " ") (shown field)
          (shown-not-empty field.name field.value) in
    visit-behind (record_field parts field) f fs more
    ∙ rw (record-behind parts field h) (simp append_assoc refl)

-- The visitor's text is the fields, each as its name, an equals sign and its value, joined by
-- spaces.
pub visit-join_with :
    (fields : List Field) → visit [] fields ≡ join_with (codes " ") (map shown fields)
unfolding visit record_field
visit-join_with [] = refl
visit-join_with (field ∷ []) = refl
visit-join_with (field ∷ f ∷ fs) =
    visit-behind (shown field) f fs (shown-not-empty field.name field.value)

module _ (std : Std) where
  -- The layer panics exactly when the target, the message or the file's name has a NUL in it, whatever
  -- the logger is.
  pub on_event-panics_iff :
      (now : Instant) (layer : PaperLayer) (event : TracingEvent) (global : Global)
      → (on_event std now layer event global ≡ aborts) ↔ (
          count 0 event.target + count 0 (message_of event) + count 0 (unwrap_or event.file []) ≢ 0)
  unfolding on_event queue_event ignored c_string_new paper2_queue_log_ffi
  on_event-panics_iff now layer event global = ground arith

  -- With the layer that `init_paper_tracing` makes for a tag, an event of a logger that is there, all
  -- of whose texts pass through C strings, and whose line is a u32: it is queued with the tag, its
  -- level, message, file and line, and its target as function.
  pub on_event-queues :
      (now : Instant) (tag : Option Text) (event : TracingEvent) (logger : LoggerThreadCtx)
      → ((t : Text) → tag ≡ some t → Passes std t)
      → Passes std event.target
      → Passes std (message_of event)
      → Passes std (unwrap_or event.file [])
      → unwrap_or event.line 0 < 2 ^ 32
      → (layer : PaperLayer) × (layer_of tag ≡ some layer)
        × (on_event std now layer event (some logger)
            ≡ returns tt (
                some (
                  queue_log logger (record {
                    level = map_level event.level;
                    tag = tag;
                    message = message_of event;
                    timestamp = now;
                    file = unwrap_or event.file [];
                    line = unwrap_or event.line 0;
                    column = 0;
                    function_name = some event.target;
                  }))))
  unfolding on_event queue_event ignored paper2_queue_log_ffi as_u32 layer_of with_tag new
  on_event-queues now none event logger passes target message file small = (
    new,
    refl,
    rw
        (
          encodes std event.target target,
          encodes std (message_of event) message,
          encodes std (unwrap_or event.file []) file,
        )
        (rw
          (
            target.decoded,
            message.decoded,
            file.decoded,
            as_u32-as_i32 (unwrap_or event.line 0) small,
          )
          refl),
  )
  on_event-queues now (some t) event logger passes target message file small =
      let p = passes t refl in
      (
        record { tag = some (utf8 t) },
        ground (arith, encodes std t p),
        rw
            (
              encodes std event.target target,
              encodes std (message_of event) message,
              encodes std (unwrap_or event.file []) file,
            )
            (rw
              (
                p.decoded,
                target.decoded,
                message.decoded,
                file.decoded,
                as_u32-as_i32 (unwrap_or event.line 0) small,
              )
              refl),
      )
