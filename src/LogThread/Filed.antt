-- ===== src/LogThread/Filed.antt =====
-- What the file of one context holds, from the entries that the logging thread took. Any write may
-- fail: that ends the thread.
use paperlog.Base.{
  ℕ, ◌≡◌, refl, sym, ap, ◌∙◌, Text, List, ◌++◌, concat, concat-append, map, Option, some,
  append_assoc, OnSome,
}
use mathlib.Core.List.{map-append}
use paperlog.LogData.{LogData}
use paperlog.LoggerThreadCtx.{LoggerThreadCtx}
use paperlog.FileLogger.Context.{text_at, tag_line, flush-text_at, do_log_batch-text_at}
use paperlog.LogThread.Progress.{FileView, Progress, ProgressBy, thread_step-Progress}
use paperlog.LogThread.{Crates, Pc, Thread, thread_step, takes}

-- The context `k`, whose file had `base` at the start, and the limit `n` of a message.
module _ (crates : Crates) (k base : Text) (n : ℕ) where
  open crates use {format_time, chunks}

  abbrev context_view : FileView crates (Option Text)
  context_view = record {
    view = λ ctx. text_at k ctx.context_map;
    Has = λ out text. text ≡ some (base ++ concat (map (tag_line format_time k) out));
    wrote = λ logs out ctx had fine.
        do_log_batch-text_at format_time k logs ctx _ had fine
        ∙ ap some (
            append_assoc base (concat (map (tag_line format_time k) out))
              (concat (map (tag_line format_time k) logs))
            ∙ ap (λ t. base ++ t)
                (sym (
                    concat-append (map (tag_line format_time k) out)
                      (map (tag_line format_time k) logs))
                  ∙ ap concat (sym (map-append (tag_line format_time k) out logs))));
    flushed = flush-text_at k;
    handed = λ ctx sinks. refl;
    queued = λ ctx queue signal. refl;
  }

  -- The file, where the thread stands at a place and took the entries.
  abbrev pub Filed : Pc → List LogData → Option Text → Type 0
  Filed = Progress crates context_view n

  abbrev pub FiledBy : List LogData → LoggerThreadCtx × Thread → Type 0
  FiledBy = ProgressBy crates context_view n

  -- A step that starts where this holds ends where it holds, with what it took added.
  pub thread_step-Filed :
      (took : List LogData) (ctx : LoggerThreadCtx) (t : Thread)
      → ctx.config.max_string_len ≡ n
      → Filed t.pc took (text_at k ctx.context_map)
      → OnSome (FiledBy (took ++ takes t.pc ctx)) (thread_step crates ctx t)
  thread_step-Filed took ctx t c w = thread_step-Progress crates context_view n took ctx t c w
