-- ===== src/SinkLogger.antt =====
-- src/logger/sink_logger.rs: an entry is handed to each sink in the order they were added; the
-- first that answers with an error ends it.
pub mod Served
use paperlog.Base.{
  ◌≡◌, refl, ap, List, [], ◌∷◌, ◌++◌, Option, none, some, arith, All, map, Option-cases, inl, inr,
  ◌⊎◌,
}
use paperlog.LoggerError.{LoggerError}
use paperlog.LogData.{LogData}
use paperlog.LoggerThreadCtx.{LoggerThreadCtx, Sink}

-- One call: the sink has had one entry more.
abbrev pub called : LogData → Sink → Sink
called log sink = record sink { received = sink.received ++ log ∷ [] }

unfoldable pub call_sinks : LogData → List Sink → List Sink × Option LoggerError
call_sinks log [] = ([], none)
call_sinks log (sink ∷ sinks) =
    let (rest, r) = call_sinks log sinks in
    elim (sink.reply sink.received log) [
      | none ↦ (called log sink ∷ rest, r)
      | some e ↦ (called log sink ∷ sinks, some e)
    ]

unfoldable pub do_log : LogData → LoggerThreadCtx → LoggerThreadCtx × Option LoggerError
unfolding call_sinks
do_log log ctx = let (sinks, r) = call_sinks log ctx.sinks in (record ctx { sinks = sinks }, r)

abbrev Accepts : LogData → Sink → Type 0
Accepts log sink = sink.reply sink.received log ≡ none

-- The entry went to the sinks `front`, which accepted it, and then to no more: because there are
-- none, or because the next one failed.
abbrev pub Delivered : LogData → List Sink → List Sink × Option LoggerError → Type 0
Delivered log before out =
    (All (Accepts log) before × (out ≡ (map (called log) before, none)))
    ⊎ ((front : List Sink) × (sink : Sink) × (back : List Sink) × (e : LoggerError) × (before
          ≡ front ++ sink ∷ back)
        × All (Accepts log) front
        × (sink.reply sink.received log ≡ some e)
        × (out ≡ (map (called log) front ++ called log sink ∷ back, some e)))

-- Every sink up to the first that fails gets the entry once, and its error is the answer; the
-- sinks behind it get nothing. Without a failure all get it.
pub call_sinks-Delivered :
    (log : LogData) (sinks : List Sink) → Delivered log sinks (call_sinks log sinks)
unfolding call_sinks
call_sinks-Delivered log [] = inl (tt, refl)
call_sinks-Delivered log (sink ∷ sinks) = elim (Option-cases (sink.reply sink.received log)) [
  | inr (e, failed) ↦ inr ([], sink, sinks, e, refl, tt, failed, ground arith)
  | inl fine ↦ elim (call_sinks-Delivered log sinks) [
    | inl (accepted, out) ↦ inl ((fine, accepted), ground arith)
    | inr (front, s, back, e, split, accepted, failed, out) ↦
        inr (sink ∷ front, s, back, e, ap (◌∷◌ sink) split, (fine, accepted), failed, ground arith)
  ]
]
