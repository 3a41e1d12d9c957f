-- ===== src/Protocol/Bounded.antt =====
-- Bounds on what the sinks have had, along a schedule.
use paperlog.Base.{
  ◌≤◌, ◌<◌, ◌≡◌, subst, sym, ap, ◌∙◌, ℕ, List, ◌++◌, length, some, All, All-mono, append_assoc,
}
use paperlog.LogData.{LogData}
use paperlog.Chunks.{IsChunks}
use paperlog.Chunks.Bounds.{
  chars, chars-front, Bounded, front-Bounded, split_str_into_chunks-Bounded,
}
use paperlog.LoggerThreadCtx.{LoggerThreadCtx, Sink}
use paperlog.LogThread.{Crates}
use paperlog.LogThread.Pieces.{Begins, Handed-Begins}
use paperlog.LogThread.Serves.{IsAlive}
use paperlog.Protocol.{System, Event, run, start}
use paperlog.Protocol.Handing.{Unused, run-SinksHad}
use paperlog.Protocol.Order.{queued-split}
use paperlog.Protocol.Record.{IsNew}

module _ (crates : Crates) where
  open crates use {chunks}

  Begins-Bounded :
      (laws : IsChunks chunks) (n : ℕ) (took behind got : List LogData)
      → 0 < n
      → Begins crates n took got
      → Bounded n (chars (took ++ behind)) got
  Begins-Bounded laws n took behind got pos b =
      let queue : took ++ behind ≡ b.done ++ (b.left ++ behind) =
        ap (λ l. l ++ behind) b.taken_in_order ∙ append_assoc b.done b.left behind in
      front-Bounded n (chars b.done) (chars (took ++ behind)) got b.rest
        (subst (λ q. chars b.done ≤ chars q) (sym queue) (chars-front b.done (b.left ++ behind)))
        (split_str_into_chunks-Bounded laws n b.done (got ++ b.rest) pos b.cut)

  -- The sinks that were there at the start, in front of those that were added.
  pub record SinksBounded (n k : ℕ) (s : System) : Type 0 where
    pub first : List Sink
    pub later : List Sink
    pub all : s.ctx.sinks ≡ first ++ later
    pub many : length first ≡ k
    pub bounded : All (λ (sink : Sink). Bounded n (chars s.queued) sink.received) first

  -- In every state that a schedule reaches from a new logger with a positive limit whose sinks have had
  -- nothing, as long as the thread has not failed or panicked: each entry that a sink of the start has
  -- had is one line, not empty, of at most `max_string_len` characters, and the messages of all that it
  -- has had are together no longer than those of the entries queued. Writes and sinks may fail.
  pub run-SinksBounded :
      (laws : IsChunks chunks) (ctx : LoggerThreadCtx) (es : List Event) (s : System)
      → 0 < ctx.config.max_string_len
      → IsNew ctx
      → All Unused ctx.sinks
      → run crates es (start ctx) ≡ some s
      → IsAlive s.thread.pc
      → SinksBounded ctx.config.max_string_len (length ctx.sinks) s
  run-SinksBounded laws ctx es s pos new unused ran alive =
      let n = ctx.config.max_string_len in
      let had = run-SinksHad crates ctx es s new unused ran alive in
      record {
        first = had.first;
        later = had.later;
        all = had.all;
        many = had.many;
        bounded =
            All-mono
              (λ sink h.
                subst (λ q. Bounded n (chars q) sink.received)
                  (sym (queued-split crates ctx es s new.queue ran))
                  (Begins-Bounded laws n s.took s.ctx.log_queue sink.received pos
                    (Handed-Begins crates n s.thread.pc s.took sink.received alive h)))
              had.first had.handed;
      }
