-- ===== src/FileLogger/Tags.antt =====
-- The file backend opens no file: a tag without one has none behind it, errors included.
use paperlog.Base.{
  ◌≡◌, refl, Text, text_eq_iff, List, [], ◌∷◌, Option, none, some, Option-cases, inl, inr, arith,
  subst,
}
use paperlog.Io.{OutFile, IoResult}
use paperlog.TextMap.{TextMap, get, get-insert}
use paperlog.LogData.{LogData, Instant, write_to_io, write_compact_to_io}
use paperlog.LoggerThreadCtx.{LoggerThreadCtx, flush, flush_all}
use paperlog.FileLogger
use paperlog.FileLogger.{write_context, batch_tag, batch_round, do_log_batch}
use paperlog.FileLogger.Batch.{batch_round-do_log}

-- The tag has no file.
abbrev pub Lacks : Text → LoggerThreadCtx → Type 0
Lacks k ctx = get k ctx.context_map ≡ none

flush_all-get :
    (k : Text) (files : TextMap OutFile) → get k files ≡ none → get k (flush_all files).0 ≡ none
unfolding flush_all get
flush_all-get k [] h = refl
flush_all-get k (e ∷ m) h = ground (arith, flush_all-get k m)

module _ (k : Text) where
  pub flush-Lacks : (ctx : LoggerThreadCtx) → Lacks k ctx → Lacks k (flush ctx).0
  unfolding flush
  flush-Lacks ctx h = ground (arith, flush_all-get k ctx.context_map)

  module _ (format_time : Instant → Text) where
    write_context-Lacks :
        (ctx : LoggerThreadCtx) (log : LogData) (tag : Text) (f : OutFile)
        → get tag ctx.context_map ≡ some f
        → Lacks k ctx
        → Lacks k (write_context format_time ctx log tag f).0
    unfolding write_context
    write_context-Lacks ctx log tag f found h = ground (
      arith,
      get-insert tag k (write_compact_to_io format_time log f).0 ctx.context_map,
      text_eq_iff tag k,
    )

    batch_tag-Lacks :
        (ctx : LoggerThreadCtx) (log : LogData) (tag : Option Text)
        → Lacks k ctx
        → Lacks k (batch_tag format_time ctx log tag).0
    unfolding batch_tag
    batch_tag-Lacks ctx log none h = h
    batch_tag-Lacks ctx log (some tag) h = elim (Option-cases (get tag ctx.context_map)) [
      | inl missing ↦ ground (arith, missing, h)
      | inr (f, found) ↦ ground (arith, found, write_context-Lacks ctx log tag f found h)
    ]

    batch_round-Lacks :
        (ctx : LoggerThreadCtx) (log : LogData)
        → Lacks k ctx
        → Lacks k (batch_round format_time log ctx).0
    unfolding batch_round
    batch_round-Lacks ctx log h = ground (
      arith,
      batch_tag-Lacks (record ctx { global_file = (write_to_io format_time log ctx.global_file).0 })
          log log.tag h,
    )

    pub do_log_batch-Lacks :
        (logs : List LogData) (ctx : LoggerThreadCtx)
        → Lacks k ctx
        → Lacks k (do_log_batch format_time logs ctx).0
    unfolding do_log_batch
    do_log_batch-Lacks [] ctx h = h
    do_log_batch-Lacks (log ∷ logs) ctx h = ground (
      arith,
      batch_round-Lacks ctx log h,
      do_log_batch-Lacks logs (batch_round format_time log ctx).0,
    )

    pub do_log-Lacks :
        (log : LogData) (ctx : LoggerThreadCtx)
        → Lacks k ctx
        → Lacks k (FileLogger.do_log format_time log ctx).0
    do_log-Lacks log ctx h =
        subst (λ (r : LoggerThreadCtx × IoResult). Lacks k r.0)
          (batch_round-do_log format_time log ctx) (batch_round-Lacks ctx log h)
