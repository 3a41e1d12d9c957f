-- ===== src/FileLogger/Batch.antt =====
-- `do_log_batch` against `do_log`.
use paperlog.Base.{◌≡◌, refl, Text, List, [], ◌∷◌, none, some, arith}
use paperlog.Io.{IoResult}
use paperlog.LogData.{LogData, Instant}
use paperlog.LoggerThreadCtx.{LoggerThreadCtx}
use paperlog.FileLogger.{do_log, batch_round, do_log_batch}

-- One entry after the other by `f`, up to the first error.
pub each :
    (LogData → LoggerThreadCtx → LoggerThreadCtx × IoResult)
    → List LogData
    → LoggerThreadCtx
    → LoggerThreadCtx × IoResult
each f [] ctx = (ctx, none)
each f (log ∷ logs) ctx =
    let (ctx', r) = f log ctx in
    let rest = each f logs ctx' in elim r [ none ↦ rest | some e ↦ (ctx', some e) ]

module _ (format_time : Instant → Text) where
  pub batch_round-do_log :
      (log : LogData) (ctx : LoggerThreadCtx)
      → batch_round format_time log ctx ≡ do_log format_time log ctx
  unfolding batch_round do_log
  batch_round-do_log log ctx = ground arith

  -- A batch does to the state, and returns, what `do_log` does for its entries one after the
  -- other, up to the first error.
  pub do_log_batch-each :
      (logs : List LogData) (ctx : LoggerThreadCtx)
      → do_log_batch format_time logs ctx ≡ each (do_log format_time) logs ctx
  unfolding do_log_batch each
  do_log_batch-each [] ctx = refl
  do_log_batch-each (log ∷ logs) ctx =
      ground
        (arith, batch_round-do_log log ctx, do_log_batch-each logs (do_log format_time log ctx).0)
