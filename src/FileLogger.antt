-- ===== src/FileLogger.antt =====
-- src/logger/file_logger.rs: an entry goes to the global file, and to the file of its context if
-- its tag has one. Both functions hold the write lock for their whole length.
pub mod Batch
pub mod Tags
pub mod Round
pub mod Context
pub mod Contents
pub mod Health
use paperlog.Base.{ℕ, Text, List, [], ◌∷◌, Option, none, some, text_eq, if◌then◌else◌}
use paperlog.Io.{IoError, OutFile, IoResult}
use paperlog.TextMap.{TextMap, get, insert}
use paperlog.LogData.{LogData, Instant, write_to_io, write_compact_to_io}
use paperlog.LoggerThreadCtx.{LoggerThreadCtx}

abbrev pub and_then {ℓ κ} : {A : Type ℓ} {B : Type κ} → Option A → (A → Option B) → Option B
and_then none f = none
and_then (some a) f = f a

module _ (format_time : Instant → Text) where
  -- The compact line in the context file of a tag. `get_mut` lends the value in the map: the file
  -- that was written is stored back under its key.
  write_context : LoggerThreadCtx → LogData → Text → OutFile → LoggerThreadCtx × IoResult
  write_context ctx log tag context_file =
      let (f, r) = write_compact_to_io format_time log context_file in
      (record ctx { context_map = insert tag f ctx.context_map }, r)

  -- `context_file`, with the tag that found it.
  find_context : LoggerThreadCtx → LogData → Option (Text × OutFile)
  find_context ctx log =
      and_then log.tag (λ tag. and_then (get tag ctx.context_map) (λ f. some (tag, f)))

  unfoldable pub do_log : LogData → LoggerThreadCtx → LoggerThreadCtx × IoResult
  unfolding write_context find_context
  do_log log ctx =
      let (g, r) = write_to_io format_time log ctx.global_file in
      let ctx' = record ctx { global_file = g } in
      elim r [
        | some e ↦ (ctx', some e)
        | none ↦ elim (find_context ctx' log) [
          | none ↦ (ctx', none)
          | some (tag, f) ↦ write_context ctx' log tag f
        ]
      ]

  -- One round of the loop of `do_log_batch`.
  batch_tag : LoggerThreadCtx → LogData → Option Text → LoggerThreadCtx × IoResult
  unfolding write_context
  batch_tag ctx log none = (ctx, none)
  batch_tag ctx log (some tag) = elim (get tag ctx.context_map) [
    | none ↦ (ctx, none)
    | some context_file ↦ write_context ctx log tag context_file
  ]

  unfoldable pub batch_round : LogData → LoggerThreadCtx → LoggerThreadCtx × IoResult
  unfolding batch_tag
  batch_round log ctx =
      let (g, r) = write_to_io format_time log ctx.global_file in
      let ctx' = record ctx { global_file = g } in
      elim r [ none ↦ batch_tag ctx' log log.tag | some e ↦ (ctx', some e) ]

  -- `?` in the loop: the first error ends the batch.
  unfoldable pub do_log_batch : List LogData → LoggerThreadCtx → LoggerThreadCtx × IoResult
  do_log_batch [] ctx = (ctx, none)
  do_log_batch (log ∷ logs) ctx =
      let (ctx', r) = batch_round log ctx in
      let rest = do_log_batch logs ctx' in elim r [ none ↦ rest | some e ↦ (ctx', some e) ]
