-- ===== src/Protocol/Handing.antt =====
-- The sinks that the logger had at its start, along a schedule.
use paperlog.Base.{
  ℕ, ◌≡◌, refl, sym, ap, ◌∙◌, List, [], ◌++◌, length, some, All, All-mono, append-nil, append_assoc,
}
use paperlog.Chunks.{split_str_into_chunks}
use paperlog.LogData.{LogData}
use paperlog.LoggerThreadCtx.{LoggerThreadCtx, Sink}
use paperlog.LogThread.{Crates, Pc, start_thread}
use paperlog.LogThread.Serves.{IsAlive}
use paperlog.LogThread.Sinks.{HandedTo, thread_step-Handed}
use paperlog.Protocol.{System, Event, run, start}
use paperlog.Protocol.Schedules.{run-keeps, All-any}
use paperlog.Protocol.Moves.{
  Move, queues, signalled, stepped, requests, waits, wakes, gives_up, administers,
}
use paperlog.Protocol.Record.{Recorded, Move-Recorded, IsNew, start-Recorded}

module _ (crates : Crates) (n k : ℕ) where
  abbrev pub SinksHad : System → Type 0
  SinksHad s = IsAlive s.thread.pc → HandedTo crates n k s.thread.pc s.took s.ctx.sinks

  -- Sinks that are added come behind.
  more_sinks :
      (pc : Pc) (took : List LogData) (before after more : List Sink)
      → after ≡ before ++ more
      → HandedTo crates n k pc took before
      → HandedTo crates n k pc took after
  more_sinks pc took before after more e h = record {
    first = h.first;
    later = h.later ++ more;
    all = e ∙ ap (λ (l : List Sink). l ++ more) h.all ∙ append_assoc h.first h.later more;
    many = h.many;
    handed = h.handed;
  }

  pub Move-SinksHad :
      {e : Event} {s t : System} → Move crates e s t → Recorded crates n s → SinksHad s → SinksHad t
  Move-SinksHad (queues logs b free eq) r h = rw eq h
  Move-SinksHad (signalled k p eq) r h = rw eq h
  Move-SinksHad {s = s} (stepped ctx thread moved free eq) r h =
      rw eq (thread_step-Handed crates n k s.took s.ctx s.thread (ctx, thread) moved r.limit h)
  Move-SinksHad (requests w p eq) r h = rw eq h
  Move-SinksHad (waits w d b p eq) r h = rw eq h
  Move-SinksHad (wakes w d b p eq) r h = rw eq h
  Move-SinksHad (gives_up d p eq) r h = rw eq h
  Move-SinksHad {s = s} (administers ctx free quiet out keeps spares eq) r h =
      rw eq (λ a. more_sinks s.thread.pc s.took s.ctx.sinks ctx.sinks out.sinks.0 out.sinks.1 (h a))

-- A sink that has had nothing yet.
abbrev pub Unused : Sink → Type 0
Unused sink = sink.received ≡ []

module _ (crates : Crates) where
  start-SinksHad :
      (ctx : LoggerThreadCtx)
      → All Unused ctx.sinks
      → SinksHad crates ctx.config.max_string_len (length ctx.sinks) (start ctx)
  unfolding start start_thread split_str_into_chunks
  start-SinksHad ctx unused = λ a. record {
    first = ctx.sinks;
    later = [];
    all = sym (append-nil ctx.sinks);
    many = refl;
    handed = All-mono (λ sink e. ap some (sym e)) ctx.sinks unused;
  }

  -- In every state that a schedule reaches from a new logger whose sinks have had nothing, each sink
  -- that was there at the start has had exactly the pieces of the entries taken, in order, but for
  -- those in hand, as long as the thread has not failed or panicked: `Handed` says it for each place
  -- of the thread. Writes and sinks may fail, and sinks may be added.
  pub run-SinksHad :
      (ctx : LoggerThreadCtx) (es : List Event) (s : System)
      → IsNew ctx
      → All Unused ctx.sinks
      → run crates es (start ctx) ≡ some s
      → SinksHad crates ctx.config.max_string_len (length ctx.sinks) s
  run-SinksHad ctx es s new unused ran =
      let n = ctx.config.max_string_len in
      let k = length ctx.sinks in
      (run-keeps crates (λ s. Recorded crates n s × SinksHad crates n k s) (λ _. Unit {0})
        (λ e s t _ m p. (Move-Recorded crates n m p.0, Move-SinksHad crates n k m p.0 p.1)) es
        (start ctx) s (All-any es) (start-Recorded crates ctx new, start-SinksHad ctx unused) ran).1
