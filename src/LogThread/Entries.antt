-- ===== src/LogThread/Entries.antt =====
-- What holds of every entry that is queued, as long as its pieces have it too, holds of all that the
-- logging thread has in hand.
use paperlog.Base.{
  ℕ, List, [], ◌∷◌, map, Option, none, some, OnSome, All, All-append, if-both, is_empty, ◌||◌, leb,
  Bool, Text,
}
use paperlog.Io.{IoResult}
use paperlog.LogData.{LogData}
use paperlog.LoggerError.{LoggerError}
use paperlog.Chunks.{
  with_message, with_messages, split_log, split_str_into_chunks, chunk_lines, split_lines,
  append_option,
}
use paperlog.LoggerThreadCtx.{LoggerThreadCtx, wait}
use paperlog.LogThread.{
  Crates, Pc, top, taken, writing, handing, checking, flushing, deciding, waiting, failed,
  reporting, stopped, panicked, Thread, take_batch, after_split, after_write, after_hand,
  after_flush, wake, end_round, step_at, thread_step,
}

module _ {κ} (P : LogData → Type κ) where
  -- The entries that are live at a place.
  abbrev pub InHand : Pc → Type κ
  InHand (taken queue) = All P queue
  InHand (writing logs) = All P logs
  InHand (handing logs) = All P logs
  InHand _ = Unit

  module _ (crates : Crates)
      (cut : (log : LogData) (piece : Text) → P log → P (with_message log piece)) where
    open crates use {chunks}

    pieces-All : (log : LogData) (cs : List Text) → P log → All P (map (with_message log) cs)
    pieces-All log [] p = tt
    pieces-All log (c ∷ cs) p = (cut log c p, pieces-All log cs p)

    with_messages-All :
        (log : LogData) (o : Option (List Text)) → P log → OnSome (All P) (with_messages log o)
    with_messages-All log none p = tt
    with_messages-All log (some cs) p = pieces-All log cs p

    append_option-All :
        (a b : Option (List LogData))
        → OnSome (All P) a
        → OnSome (All P) b
        → OnSome (All P) (append_option a b)
    append_option-All none b p q = tt
    append_option-All (some xs) none p q = tt
    append_option-All (some xs) (some ys) p q = All-append P xs ys p q

    split-All :
        (n : ℕ) (logs : List LogData)
        → All P logs
        → OnSome (All P) (split_str_into_chunks chunks logs n)
    unfolding split_str_into_chunks split_log
    split-All n [] a = tt
    split-All n (log ∷ logs) a =
        append_option-All (split_log chunks n log) (split_str_into_chunks chunks logs n)
          (with_messages-All log (chunk_lines chunks n (split_lines log.message)) a.0)
          (split-All n logs a.1)

    after_split-InHand :
        (t : Thread) (o : Option (List LogData))
        → OnSome (All P) o
        → InHand (after_split crates t o).pc
    unfolding after_split
    after_split-InHand t none a = tt
    after_split-InHand t (some logs) a = a

    after_write-InHand :
        (t : Thread) (logs : List LogData) (r : LoggerThreadCtx × IoResult)
        → All P logs
        → InHand (after_write crates t logs r).1.pc
    unfolding after_write
    after_write-InHand t logs (ctx, none) a = a
    after_write-InHand t logs (ctx, some e) a = tt

    after_hand-InHand :
        (t : Thread) (rest : List LogData) (r : LoggerThreadCtx × Option LoggerError)
        → All P rest
        → InHand (after_hand crates t rest r).1.pc
    unfolding after_hand
    after_hand-InHand t rest (ctx, none) a = a
    after_hand-InHand t rest (ctx, some e) a = tt

    after_flush-InHand :
        (t : Thread) (r : LoggerThreadCtx × IoResult) → InHand (after_flush crates t r).1.pc
    unfolding after_flush
    after_flush-InHand t (ctx, none) = tt
    after_flush-InHand t (ctx, some e) = tt

    abbrev pub HandOut : LoggerThreadCtx × Thread → Type κ
    HandOut out = InHand out.1.pc

    wake-InHand :
        (ctx : LoggerThreadCtx) (t : Thread) (o : Option Bool)
        → OnSome HandOut (wake crates ctx t o)
    unfolding wake end_round
    wake-InHand ctx t none = tt
    wake-InHand ctx t (some flag) = tt

    step_at-InHand :
        (ctx : LoggerThreadCtx) (t : Thread) (pc : Pc)
        → All P ctx.log_queue
        → InHand pc
        → OnSome HandOut (step_at crates ctx t pc)
    unfolding step_at take_batch end_round
    step_at-InHand ctx t top q h = q
    step_at-InHand ctx t (taken []) q h = tt
    step_at-InHand ctx t (taken (x ∷ xs)) q h =
        after_split-InHand t _ (split-All ctx.config.max_string_len (x ∷ xs) h)
    step_at-InHand ctx t (writing logs) q h = after_write-InHand t logs _ h
    step_at-InHand ctx t (handing []) q h = tt
    step_at-InHand ctx t (handing (l ∷ ls)) q h = after_hand-InHand t ls _ h.1
    step_at-InHand ctx t checking q h =
        if-both InHand (is_empty ctx.log_queue || leb 100 t.logged) flushing deciding tt tt
    step_at-InHand ctx t flushing q h = after_flush-InHand t _
    step_at-InHand ctx t deciding q h =
        if-both (λ (u : Thread). InHand u.pc) (is_empty ctx.log_queue) (record t { pc = waiting })
          (end_round t) tt tt
    step_at-InHand ctx t waiting q h = wake-InHand ctx t (wait ctx.log_signal)
    step_at-InHand ctx t (failed x) q h = tt
    step_at-InHand ctx t (reporting x) q h = tt
    step_at-InHand ctx t (stopped x) q h = tt
    step_at-InHand ctx t panicked q h = tt

    pub thread_step-InHand :
        (ctx : LoggerThreadCtx) (t : Thread)
        → All P ctx.log_queue
        → InHand t.pc
        → OnSome HandOut (thread_step crates ctx t)
    unfolding thread_step
    thread_step-InHand ctx t q h = step_at-InHand ctx t t.pc q h
