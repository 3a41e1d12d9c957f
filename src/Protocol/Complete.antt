-- ===== src/Protocol/Complete.antt =====
-- What becomes of every entry in a healthy logger.
use paperlog.Base.{
  length, sym, ℕ, subst, ◌≡◌, refl, ◌∙◌, List, some, All, All-mono, OnSome-some, arith,
}
use paperlog.Chunks.{IsChunks}
use paperlog.LogData.{LogData}
use paperlog.LoggerThreadCtx.{LoggerThreadCtx}
use paperlog.LogThread.{Crates, waiting}
use paperlog.LogThread.Serves.{IsAlive}
use paperlog.LogThread.Sinks.{HandedTo}
use paperlog.Protocol.Handing.{Unused, SinksHad, Move-SinksHad, run-SinksHad}
use paperlog.LogThread.Health.{Healthy}
use paperlog.LogThread.Idle.{IsFlushed}
use paperlog.LogThread.Written.{Printed}
use paperlog.Protocol.{System, Event, perform, run, start}
use paperlog.Protocol.Clients.{Fair, Waits, Pushes, Queues-Pushes}
use paperlog.Protocol.Moves.{
  Move, perform-Move, queues, signalled, stepped, requests, waits, wakes, gives_up, administers,
}
use paperlog.Protocol.Record.{IsNew, Recorded, Move-Recorded, run-Recorded}
use paperlog.Protocol.Quiet.{IsQuiet, Heard, Move-Heard, run-Heard, quiet-Printed, quiet-took}
use paperlog.Protocol.Service.{Fair-Waits, run-InService, start-InService}
use paperlog.Protocol.Delivery.{Own, Ends, EndsBy-keeps}
use paperlog.Protocol.Always.{run-Ends}

pub Own-Fair : (e : Event) → Own e → Fair e
Own-Fair e o = ground arith

Own-Pushes : (e : Event) → Own e → ¬ Pushes e
Own-Pushes e o p = ground arith

module _ (crates : Crates) where
  -- What is left to happen has no new entry in it.
  Move-queued : {e : Event} {s t : System} → ¬ Pushes e → Move crates e s t → t.queued ≡ s.queued
  Move-queued {e} a (queues logs b free eq) = absurd (a (Queues-Pushes e logs b))
  Move-queued a (signalled k p eq) = rw eq refl
  Move-queued a (stepped ctx thread moved free eq) = rw eq refl
  Move-queued a (requests w p eq) = rw eq refl
  Move-queued a (waits w d b p eq) = rw eq refl
  Move-queued a (wakes w d b p eq) = rw eq refl
  Move-queued a (gives_up d p eq) = rw eq refl
  Move-queued a (administers ctx free quiet out keeps spares eq) = rw eq refl

  -- The logger is done with the entries queued up to `s`: it is quiet, no entry was added, the
  -- global file holds what those entries print, all of it flushed, and each of the first `k` sinks
  -- has had exactly their pieces.
  pub record Done (n k : ℕ) (s u : System) : Type 0 where
    pub quiet : IsQuiet u
    pub queued : u.queued ≡ s.queued
    pub printed : Printed crates n s.queued u.ctx.global_file.text
    pub flushed : IsFlushed u.ctx
    pub handed : HandedTo crates n k waiting s.queued u.ctx.sinks

  -- All that is kept along a schedule.
  record Kept (n k : ℕ) (s : System) : Type 0 where
    recorded : Recorded crates n s
    heard : Heard s
    sinks : SinksHad crates n k s

  Move-Kept :
      (n k : ℕ) {e : Event} {s t : System} → ¬ Waits e → Move crates e s t → Kept n k s → Kept n k t
  Move-Kept n k b m p = record {
    recorded = Move-Recorded crates n m p.recorded;
    heard = Move-Heard crates b m p.recorded.idle p.heard;
    sinks = Move-SinksHad crates n k m p.recorded p.sinks;
  }

  quiet-Done :
      (n k : ℕ) (s u : System) → Kept n k u → IsQuiet u → u.queued ≡ s.queued → Done n k s u
  quiet-Done n k s u h quiet same =
      let (printed, flushed) = quiet-Printed crates n u h.recorded h.heard quiet in
      let all : u.took ≡ s.queued = sym (quiet-took crates n u h.recorded h.heard quiet) ∙ same in
      let handed : HandedTo crates n k waiting u.took u.ctx.sinks =
        subst (λ pc. IsAlive pc → HandedTo crates n k pc u.took u.ctx.sinks) quiet.sleeps h.sinks
          tt in
      record {
        quiet = quiet;
        queued = same;
        printed = subst (λ q. Printed crates n q u.ctx.global_file.text) same printed;
        flushed = flushed;
        handed = subst (λ q. HandedTo crates n k waiting q u.ctx.sinks) all handed;
      }

  Own-Kept :
      (n k : ℕ) (q : List LogData) (e : Event) (s t : System)
      → Own e
      → perform crates e s ≡ some t
      → Kept n k s × (s.queued ≡ q)
      → Kept n k t × (t.queued ≡ q)
  Own-Kept n k q e s t own went (kept, same) =
      let m = OnSome-some (Move crates e s) (perform crates e s) (perform-Move crates e s) went in
      (
        Move-Kept n k (Fair-Waits e (Own-Fair e own)) m kept,
        Move-queued (Own-Pushes e own) m ∙ same,
      )

  -- Every entry is delivered, whatever the interleaving: from a new, healthy logger whose sinks have
  -- had nothing, after any schedule of fair events, if no client makes a new call, the calls under way
  -- and the thread always come to an end after finitely many events, in whatever order these happen,
  -- and as long as they have not, one can happen. At the end the logger is quiet, the global file holds
  -- exactly what all the entries queued print, cut up, in order and once each, all of that file is
  -- flushed, and each sink of the start has had exactly the pieces of all the entries, in order.
  pub run-Done :
      (laws : IsChunks crates.chunks) (ctx : LoggerThreadCtx) (es : List Event) (s : System)
      → IsNew ctx
      → Healthy ctx
      → All Unused ctx.sinks
      → All Fair es
      → run crates es (start ctx) ≡ some s
      → Ends crates (Done ctx.config.max_string_len (length ctx.sinks) s) s
  run-Done laws ctx es s new healthy unused fair ran =
      let n = ctx.config.max_string_len in
      let k = length ctx.sinks in
      let kept : Kept n k s = record {
        recorded = run-Recorded crates ctx es s new ran;
        heard = run-Heard crates ctx es s new (All-mono Fair-Waits es fair) ran;
        sinks = run-SinksHad crates ctx es s new unused ran;
      } in
      let service =
        run-InService crates laws es (start ctx) s fair ran (start-InService ctx healthy) in
      EndsBy-keeps (perform crates) IsQuiet (Done n k s) (λ u. Kept n k u × (u.queued ≡ s.queued))
        (Own-Kept n k s.queued) (λ u quiet (kept, same). quiet-Done n k s u kept quiet same) s
        (kept, refl) (run-Ends crates laws s service kept.recorded.order.clean)
