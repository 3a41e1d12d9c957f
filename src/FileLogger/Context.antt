-- ===== src/FileLogger/Context.antt =====
-- The text in the file of one context. Any write may fail.
use paperlog.Base.{
  Text, text_eq, text_eq_iff, List, [], ◌∷◌, ◌++◌, concat, map, Option, none, some, ◌≡◌, refl, sym,
  ap, ◌∙◌, if◌then◌else◌, arith, append_assoc, append-nil, Option-cases, inl, inr,
}
use paperlog.Io.{OutFile, write_text, flush_file}
use paperlog.TextMap.{TextMap, get, get-insert}
use paperlog.LogData.{LogData, Instant, write_to_io, write_compact_to_io, compact_line, full_line}
use paperlog.LoggerThreadCtx.{LoggerThreadCtx, flush, flush_all}
use paperlog.FileLogger.{write_context, batch_tag, batch_round, do_log_batch}
use paperlog.FileLogger.Round.{has_tag, option_map}

-- What the file of `k` holds, if there is one.
abbrev pub text_at : Text → TextMap OutFile → Option Text
text_at k files = option_map (λ f. f.text) (get k files)

-- What an entry adds to it.
abbrev pub tag_line : (Instant → Text) → Text → LogData → Text
tag_line format_time k log = if has_tag k log.tag then compact_line format_time log else []

write_text-ok :
    (f : OutFile) (t : Text) → (write_text f t).1 ≡ none → (write_text f t).0.text ≡ f.text ++ t
unfolding write_text
write_text-ok f t h = ground arith

flush_file-text : (f : OutFile) → (flush_file f).0.text ≡ f.text
unfolding flush_file
flush_file-text f = ground arith

flush_all-text :
    (k : Text) (files : TextMap OutFile) → text_at k (flush_all files).0 ≡ text_at k files
unfolding flush_all get
flush_all-text k [] = refl
flush_all-text k (e ∷ m) = ground (arith, flush_all-text k m, flush_file-text e.value)

-- A flush changes no text.
pub flush-text_at :
    (k : Text) (ctx : LoggerThreadCtx)
    → text_at k (flush ctx).0.context_map ≡ text_at k ctx.context_map
unfolding flush
flush-text_at k ctx = ground (arith, flush_all-text k ctx.context_map)

module _ (format_time : Instant → Text) (k : Text) where
  write_context-text_at :
      (log : LogData) (tag : Text) (f : OutFile) (ctx : LoggerThreadCtx) (t : Text)
      → get tag ctx.context_map ≡ some f
      → text_at k ctx.context_map ≡ some t
      → (write_context format_time ctx log tag f).1 ≡ none
      → text_at k (write_context format_time ctx log tag f).0.context_map
        ≡ some (t ++ (if text_eq tag k then compact_line format_time log else []))
  unfolding write_context write_compact_to_io
  write_context-text_at log tag f ctx t found before fine = ground (
    arith,
    get-insert tag k (write_text f (compact_line format_time log)).0 ctx.context_map,
    write_text-ok f (compact_line format_time log),
    text_eq_iff tag k,
    append-nil t,
  )

  batch_tag-text_at :
      (log : LogData) (tag : Option Text) (ctx : LoggerThreadCtx) (t : Text)
      → text_at k ctx.context_map ≡ some t
      → (batch_tag format_time ctx log tag).1 ≡ none
      → text_at k (batch_tag format_time ctx log tag).0.context_map
        ≡ some (t ++ (if has_tag k tag then compact_line format_time log else []))
  unfolding batch_tag
  batch_tag-text_at log none ctx t before fine = before ∙ ap some (sym (append-nil t))
  batch_tag-text_at log (some tag) ctx t before fine =
      elim (Option-cases (get tag ctx.context_map)) [
        | inl missing ↦ ground (arith, text_eq_iff tag k, append-nil t)
        | inr (f, found) ↦ ground (arith, write_context-text_at log tag f ctx t found before)
      ]

  batch_round-text_at :
      (log : LogData) (ctx : LoggerThreadCtx) (t : Text)
      → text_at k ctx.context_map ≡ some t
      → (batch_round format_time log ctx).1 ≡ none
      → text_at k (batch_round format_time log ctx).0.context_map
        ≡ some (t ++ tag_line format_time k log)
  unfolding batch_round write_to_io
  batch_round-text_at log ctx t before fine =
      elim (Option-cases (write_text ctx.global_file (full_line format_time log)).1) [
        | inl written ↦ ground (
          arith,
          batch_tag-text_at log log.tag
              (record ctx { global_file = (write_to_io format_time log ctx.global_file).0 }) t
              before,
        )
        | inr (e, failed) ↦ absurd (ground arith)
      ]

  -- A batch that returns no error has added the lines of its entries with the tag.
  pub do_log_batch-text_at :
      (logs : List LogData) (ctx : LoggerThreadCtx) (t : Text)
      → text_at k ctx.context_map ≡ some t
      → (do_log_batch format_time logs ctx).1 ≡ none
      → text_at k (do_log_batch format_time logs ctx).0.context_map
        ≡ some (t ++ concat (map (tag_line format_time k) logs))
  unfolding do_log_batch
  do_log_batch-text_at [] ctx t before fine = before ∙ ap some (sym (append-nil t))
  do_log_batch-text_at (log ∷ logs) ctx t before fine = ground (
    arith,
    batch_round-text_at log ctx t before,
    do_log_batch-text_at logs (batch_round format_time log ctx).0 (t ++ tag_line format_time k log),
    append_assoc t (tag_line format_time k log) (concat (map (tag_line format_time k) logs)),
  )
