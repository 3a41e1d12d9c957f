-- ===== src/FileLogger/Health.antt =====
-- Files none of whose coming writes fails, and the batch.
use paperlog.Base.{Option, none, some, List, [], ◌∷◌, Text, Option-cases, inl, inr, arith}
use paperlog.Io.{OutFile, Sound, write_text}
use paperlog.TextMap.{get, AllValues, AllValues-get, AllValues-insert}
use paperlog.LogData.{LogData, Instant, write_to_io, write_compact_to_io, full_line, compact_line}
use paperlog.LoggerThreadCtx.{LoggerThreadCtx}
use paperlog.FileLogger.{write_context, batch_tag, batch_round, do_log_batch}
use paperlog.FileLogger.Round.{AllSound, batch_round-Round}

-- Every file that is open, found by a tag or not.
pub record FilesSound (ctx : LoggerThreadCtx) : Type 0 where
  pub global : Sound ctx.global_file
  pub contexts : AllValues Sound ctx.context_map

pub FilesSound-AllSound : {ctx : LoggerThreadCtx} → FilesSound ctx → AllSound ctx
FilesSound-AllSound {ctx} h = record {
  global = h.global;
  contexts = λ k f e. AllValues-get Sound k ctx.context_map h.contexts e;
}

write_text-Sound : (f : OutFile) (t : Text) → Sound f → Sound (write_text f t).0
unfolding write_text
write_text-Sound f t h = ground arith

module _ (format_time : Instant → Text) where
  write_context-FilesSound :
      (log : LogData) (tag : Text) (f : OutFile) (ctx : LoggerThreadCtx)
      → Sound f
      → FilesSound ctx
      → FilesSound (write_context format_time ctx log tag f).0
  unfolding write_context write_compact_to_io
  write_context-FilesSound log tag f ctx s h = record {
    global = h.global;
    contexts =
        AllValues-insert Sound tag (write_text f (compact_line format_time log)).0 ctx.context_map
          h.contexts (write_text-Sound f (compact_line format_time log) s);
  }

  batch_tag-FilesSound :
      (log : LogData) (tag : Option Text) (ctx : LoggerThreadCtx)
      → FilesSound ctx
      → FilesSound (batch_tag format_time ctx log tag).0
  unfolding batch_tag
  batch_tag-FilesSound log none ctx h = h
  batch_tag-FilesSound log (some tag) ctx h = elim (Option-cases (get tag ctx.context_map)) [
    | inl missing ↦ rw (missing, batch_tag) h
    | inr (f, found) ↦
        rw (found, batch_tag)
          (write_context-FilesSound log tag f ctx
            (AllValues-get Sound tag ctx.context_map h.contexts found) h)
  ]

  batch_round-FilesSound :
      (log : LogData) (ctx : LoggerThreadCtx)
      → FilesSound ctx
      → FilesSound (batch_round format_time log ctx).0
  unfolding batch_round write_to_io
  batch_round-FilesSound log ctx h =
      let w = write_text ctx.global_file (full_line format_time log) in
      let files : FilesSound (record ctx { global_file = w.0 }) = record {
        global = write_text-Sound ctx.global_file (full_line format_time log) h.global;
        contexts = h.contexts;
      } in
      elim (Option-cases w.1) [
        | inl fine ↦
            rw (fine, batch_round)
              (batch_tag-FilesSound log log.tag (record ctx { global_file = w.0 }) files)
        | inr (e, failed) ↦ rw (failed, batch_round) files
      ]

  pub do_log_batch-FilesSound :
      (logs : List LogData) (ctx : LoggerThreadCtx)
      → FilesSound ctx
      → FilesSound (do_log_batch format_time logs ctx).0
  unfolding do_log_batch
  do_log_batch-FilesSound [] ctx h = h
  do_log_batch-FilesSound (log ∷ logs) ctx h =
      let round = batch_round-Round format_time log ctx (FilesSound-AllSound h) in
      rw (round.fine, do_log_batch)
        (do_log_batch-FilesSound logs (batch_round format_time log ctx).0
          (batch_round-FilesSound log ctx h))
