-- ===== src/FileLogger/Contents.antt =====
-- What each file holds after a batch, when no write fails.
use paperlog.Base.{
  ◌≡◌, refl, Text, List, [], ◌∷◌, concat, map, Option, none, some, if◌then◌else◌, arith, ap, sym,
  ◌∙◌, Option-cases, inl, inr, append-nil, append_assoc,
}
use paperlog.Io.{OutFile, IoResult}
use paperlog.TextMap.{get}
use paperlog.LogData.{LogData, Instant, full_line, compact_line}
use paperlog.LoggerThreadCtx.{LoggerThreadCtx}
use paperlog.FileLogger.Round.{
  extended, AllSound, has_tag, option_map, context_step, Round, batch_round-Round,
}
use paperlog.FileLogger.{batch_round, do_log_batch}

-- The entries with a given tag.
pub tagged : Text → List LogData → List LogData
tagged k [] = []
tagged k (log ∷ logs) = if has_tag k log.tag then log ∷ tagged k logs else tagged k logs

extended-nil : (f : OutFile) → extended [] f ≡ f
extended-nil f = λ i. record f { text = append-nil f.text i }

extended-nil_option : (o : Option OutFile) → o ≡ option_map (extended []) o
extended-nil_option none = refl
extended-nil_option (some f) = ap some (sym (extended-nil f))

module _ (format_time : Instant → Text) where
  -- All that a batch without an error does.
  pub record Wrote (logs : List LogData) (before after : LoggerThreadCtx) : Type 0 where
    pub global :
        after.global_file ≡ extended (concat (map (full_line format_time) logs)) before.global_file
    pub contexts :
        (k : Text)
        → get k after.context_map
          ≡ option_map
              (extended (concat (map (compact_line format_time) (tagged k logs))))
              (get k before.context_map)
    pub rest :
        after ≡ record before { global_file = after.global_file; context_map = after.context_map }

  pub Round-AllSound :
      {log : LogData} {ctx : LoggerThreadCtx} {out : LoggerThreadCtx × IoResult}
      → Round format_time log ctx out
      → AllSound ctx
      → AllSound out.0
  Round-AllSound {log} {ctx} {out} r s = record {
    global = rw r.global s.global;
    contexts = λ k f e. elim (Option-cases (get k ctx.context_map)) [
      | inl missing ↦ ground (arith, r.contexts k)
      | inr (g, found) ↦ ground (arith, r.contexts k, s.contexts k g found)
    ];
  }

  context_step-append :
      (k : Text) (log : LogData) (logs : List LogData) (o : Option OutFile)
      → option_map
          (extended (concat (map (compact_line format_time) (tagged k logs))))
          (context_step format_time k log o)
        ≡ option_map (extended (concat (map (compact_line format_time) (tagged k (log ∷ logs))))) o
  unfolding tagged
  context_step-append k log logs none = ground arith
  context_step-append k log logs (some f) = ground (
    arith,
    append_assoc f.text (compact_line format_time log)
        (concat (map (compact_line format_time) (tagged k logs))),
  )

  Wrote-nil : (ctx : LoggerThreadCtx) → Wrote [] ctx ctx
  unfolding tagged
  Wrote-nil ctx = record {
    global = sym (extended-nil ctx.global_file);
    contexts = λ k. extended-nil_option (get k ctx.context_map);
    rest = refl;
  }

  Wrote-cons :
      {log : LogData} {logs : List LogData} {ctx end : LoggerThreadCtx}
      {out : LoggerThreadCtx × IoResult}
      → Round format_time log ctx out
      → Wrote logs out.0 end
      → Wrote (log ∷ logs) ctx end
  Wrote-cons {log} {logs} {ctx} {end} {out} r w = record {
    global = w.global ∙ rw r.global (rw append_assoc);
    contexts = λ k.
        w.contexts k ∙ rw (r.contexts k) (context_step-append k log logs (get k ctx.context_map));
    rest =
        w.rest
        ∙ ap
            (λ (c : LoggerThreadCtx). record c {
              global_file = end.global_file;
              context_map = end.context_map;
            })
            r.rest;
  }

  -- If no write that is still to come fails, a batch returns no error, the global file grows by
  -- the lines of all its entries, each context file by the compact lines of the entries with its
  -- tag, in order, and nothing else of the state changes.
  pub do_log_batch-Wrote :
      (logs : List LogData) (ctx : LoggerThreadCtx)
      → AllSound ctx
      → ((do_log_batch format_time logs ctx).1 ≡ none)
        × Wrote logs ctx (do_log_batch format_time logs ctx).0
        × AllSound (do_log_batch format_time logs ctx).0
  unfolding do_log_batch
  do_log_batch-Wrote [] ctx s = (refl, Wrote-nil ctx, s)
  do_log_batch-Wrote (log ∷ logs) ctx s =
      let r = batch_round-Round format_time log ctx s in
      let (fine, wrote, sound) =
        do_log_batch-Wrote logs (batch_round format_time log ctx).0 (Round-AllSound r s) in
      rw (r.fine, do_log_batch) (fine, Wrote-cons r wrote, sound)
