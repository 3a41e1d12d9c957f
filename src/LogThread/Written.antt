-- ===== src/LogThread/Written.antt =====
-- What the global file holds, from the entries that the logging thread took. Any write may fail.
use paperlog.Base.{
  ℕ, ◌≡◌, refl, sym, ap, ◌∙◌, Text, List, [], ◌∷◌, ◌++◌, concat, concat-append, map, none, arith,
  append-nil, append_assoc, OnSome,
}
use mathlib.Core.List.{map-append}
use paperlog.Io.{OutFile, write_text, flush_file}
use paperlog.LogData.{LogData, full_line, write_to_io}
use paperlog.LoggerThreadCtx.{LoggerThreadCtx, flush}
use paperlog.FileLogger
use paperlog.LogThread.Progress.{FileView, HasAll, Progress, ProgressBy, thread_step-Progress}
use paperlog.LogThread.{Crates, Pc, Thread, thread_step, takes}

write_text-ok :
    (f : OutFile) (t : Text) → (write_text f t).1 ≡ none → (write_text f t).0.text ≡ f.text ++ t
unfolding write_text
write_text-ok f t h = ground arith

-- A flush keeps the text, and one that succeeds leaves nothing unflushed.
pub flush-text : (ctx : LoggerThreadCtx) → (flush ctx).0.global_file.text ≡ ctx.global_file.text
unfolding flush flush_file
flush-text ctx = ground arith

module _ (crates : Crates) where
  open crates use {format_time, chunks}

  batch_round-text :
      (log : LogData) (ctx : LoggerThreadCtx)
      → (FileLogger.batch_round format_time log ctx).1 ≡ none
      → (FileLogger.batch_round format_time log ctx).0.global_file.text
        ≡ ctx.global_file.text ++ full_line format_time log
  unfolding FileLogger.batch_round write_to_io
  batch_round-text log ctx h =
      ground (arith, write_text-ok ctx.global_file (full_line format_time log))

  -- A batch that returns no error has written all its lines to the global file.
  pub do_log_batch-text :
      (logs : List LogData) (ctx : LoggerThreadCtx)
      → (FileLogger.do_log_batch format_time logs ctx).1 ≡ none
      → (FileLogger.do_log_batch format_time logs ctx).0.global_file.text
        ≡ ctx.global_file.text ++ concat (map (full_line format_time) logs)
  unfolding FileLogger.do_log_batch
  do_log_batch-text [] ctx h = sym (append-nil ctx.global_file.text)
  do_log_batch-text (log ∷ logs) ctx h = ground (
    arith,
    batch_round-text log ctx,
    do_log_batch-text logs (FileLogger.batch_round format_time log ctx).0,
    append_assoc ctx.global_file.text (full_line format_time log)
        (concat (map (full_line format_time) logs)),
  )

  abbrev global_view : FileView crates Text
  global_view = record {
    view = λ ctx. ctx.global_file.text;
    Has = λ out text. text ≡ concat (map (full_line format_time) out);
    wrote = λ logs out ctx had fine.
        do_log_batch-text logs ctx fine
        ∙ ap (λ t. t ++ concat (map (full_line format_time) logs)) had
        ∙ sym (concat-append (map (full_line format_time) out) (map (full_line format_time) logs))
        ∙ ap concat (sym (map-append (full_line format_time) out logs));
    flushed = flush-text;
    handed = λ ctx sinks. refl;
    queued = λ ctx queue signal. refl;
  }

  -- The text is what the entries print, once they are cut up.
  abbrev pub Printed : ℕ → List LogData → Text → Type 0
  Printed n = HasAll crates global_view n

  -- The global file, where the thread stands at a place.
  abbrev pub Written : ℕ → Pc → List LogData → Text → Type 0
  Written n = Progress crates global_view n

  abbrev pub WrittenBy : ℕ → List LogData → LoggerThreadCtx × Thread → Type 0
  WrittenBy n = ProgressBy crates global_view n

  -- A step that starts where this holds ends where it holds, with what it took added.
  pub thread_step-Written :
      (n : ℕ) (took : List LogData) (ctx : LoggerThreadCtx) (t : Thread)
      → ctx.config.max_string_len ≡ n
      → Written n t.pc took ctx.global_file.text
      → OnSome (WrittenBy n (took ++ takes t.pc ctx)) (thread_step crates ctx t)
  thread_step-Written n took ctx t c w = thread_step-Progress crates global_view n took ctx t c w
