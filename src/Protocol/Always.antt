-- ===== src/Protocol/Always.antt =====
-- A healthy logger at work: the events that are left when no client makes a new call come to an end, in
-- whatever order they happen, and they end in a quiet logger.
use paperlog.Base.{
  ℕ, zero, suc, ◌≡◌, inl, inr, refl, sym, ap₂, subst, ◌∙◌, Bool, true, false, Bool-cases, some,
  none, OnSome-some, arith,
}
use paperlog.Chunks.{IsChunks}
use paperlog.LoggerThreadCtx.{LoggerThreadCtx}
use paperlog.LogThread.Health.{Healthy-queue}
use paperlog.LogThread.{Crates, Thread, waiting, end_round, thread_step}
use paperlog.LogThread.Settles.{Settles, steps, rests, thread-Settles}
use paperlog.LogThread.Serves.{Serves, thread_step-Serves, thread_step-wakes, thread_step-sleeps}
use paperlog.LogThread.Order.{HasCleanPool, Keeps, thread_step-Keeps}
use paperlog.Protocol.{System, Event, signals, advance, request, perform, moved}
use paperlog.Protocol.Moves.{stepped_to}
use paperlog.Protocol.Quiet.{IsQuiet}
use paperlog.Protocol.Service.{InService}
use paperlog.Protocol.Delivery.{Own, Ends, over, more}
use paperlog.Protocol.Steps.{
  waits_or_keeps, Rests-asleep, signalled_to, signals-inv, advance-inv, request-inv, quiet-stuck,
  progress,
}

module _ (crates : Crates) where
  -- A logger at work, with `n` calls under way.
  record Working (n : ℕ) (s : System) : Type 0 where
    service : InService s
    clean : HasCleanPool s.thread
    under_way : s.pending ≡ n

  module _ (laws : IsChunks crates.chunks) where
    stepped-Working :
        (n : ℕ) (s : System) (ctx : LoggerThreadCtx) (t : Thread)
        → Working n s
        → thread_step crates s.ctx s.thread ≡ some (ctx, t)
        → Working n (stepped_to s ctx t)
    stepped-Working n s ctx t w step =
        let serves =
          OnSome-some (Serves s.ctx s.thread.pc) (thread_step crates s.ctx s.thread)
            (thread_step-Serves crates laws s.ctx s.thread w.service.healthy w.service.alive)
            step in
        let keeps =
          OnSome-some (Keeps crates s.ctx s.thread.pc) (thread_step crates s.ctx s.thread)
            (thread_step-Keeps crates s.ctx s.thread w.clean) step in
        record {
          service = record {
            healthy = serves.healthy;
            alive = serves.alive;
            alone = w.service.alone;
          };
          clean = keeps.clean;
          under_way = w.under_way;
        }

    -- With `n` calls under way, where fewer of them are known to come to the end.
    module _ (n : ℕ)
        (fewer : (m : ℕ) → n ≡ suc m → (t : System) → Working m t → Ends crates IsQuiet t) where
      signals-Ends :
          (s t : System) → Working n s → perform crates signals s ≡ some t → Ends crates IsQuiet t
      signals-Ends s t w went =
          let (m, p, eq) = signals-inv crates s t went in
          subst (Ends crates IsQuiet) (sym eq) (
            fewer m (sym w.under_way ∙ p) (signalled_to s m) (record {
              service = record {
                healthy = Healthy-queue s.ctx.log_queue true w.service.healthy;
                alive = w.service.alive;
                alone = w.service.alone;
              };
              clean = w.clean;
              under_way = refl;
            }))

      abbrev Steps : System → Type 0
      Steps s =
          (ctx : LoggerThreadCtx) (t : Thread)
          → thread_step crates s.ctx s.thread ≡ some (ctx, t)
          → Ends crates IsQuiet (stepped_to s ctx t)

      node :
          (s : System)
          → Working n s
          → Steps s
          → (s.requested ≡ false → Ends crates IsQuiet (record s { requested = true }))
          → Ends crates IsQuiet s
      node s w stepped asked = elim (progress crates s w.service w.clean) [
        | inl quiet ↦ over (quiet-stuck crates s quiet) quiet
        | inr (e, t, own, went) ↦ more e t own went next
      ]
        where
          next :
              (e : Event) (t : System) → Own e → perform crates e s ≡ some t → Ends crates IsQuiet t
          next signals t own went = signals-Ends s t w went
          next advance t own went =
              let (ctx, u, step, eq) = advance-inv crates s t went in
              subst (Ends crates IsQuiet) (sym eq) (stepped ctx u step)
          next request t own went =
              let (fresh, eq) = request-inv crates s t went in
              subst (Ends crates IsQuiet) (sym eq) (asked fresh)
          next _ t own went = absurd own

      both : (s : System) → Working n s → Steps s → Ends crates IsQuiet s
      both s w stepped = node s w stepped (λ fresh.
          node (record s { requested = true })
            (record {
              service = record {
                healthy = w.service.healthy;
                alive = w.service.alive;
                alone = w.service.alone;
              };
              clean = w.clean;
              under_way = w.under_way;
            })
            stepped (λ again. absurd (ground (arith, again))))

      module _ (flag : Bool)
          (woken : flag ≡ true
            → (t : System) → Working n t
            → t.ctx.log_signal ≡ false
            → Ends crates IsQuiet t) where
        -- The wait comes to an end only by the signal, which it takes back.
        wakes-Ends :
            (s : System) → Working n s → s.ctx.log_signal ≡ flag → s.thread.pc ≡ waiting → Steps s
        wakes-Ends s w same sleeps ctx t step = elim (Bool-cases s.ctx.log_signal) [
          | inr unset ↦
              let stuck = thread_step-sleeps crates s.ctx s.thread sleeps unset in
              let both : none ≡ some (ctx, t) = sym stuck ∙ step in absurd (ground (arith, both))
          | inl set ↦
              let wake = thread_step-wakes crates s.ctx s.thread sleeps set in
              let both : some (record s.ctx { log_signal = false }, end_round s.thread)
                  ≡ some (ctx, t) =
                sym wake ∙ step in
              let taken_back : ctx.log_signal ≡ false = ground (arith, both) in
              woken (sym same ∙ set) (stepped_to s ctx t) (stepped-Working n s ctx t w step)
                taken_back
        ]

        awake :
            {c : LoggerThreadCtx} {u : Thread}
            → Settles crates c u
            → (s : System) → s.ctx ≡ c
            → s.thread ≡ u
            → Working n s
            → s.ctx.log_signal ≡ flag
            → Ends crates IsQuiet s
        awake (rests r) s ec et w same =
            both s w (wakes-Ends s w same (Rests-asleep (rw et r) w.service.alive))
        awake (steps c' u' moved k) s ec et w same = both s w (λ ctx t step.
            elim (waits_or_keeps s.thread.pc) [
              | inl sleeps ↦ wakes-Ends s w same sleeps ctx t step
              | inr keeps ↦
                  let serves =
                    OnSome-some (Serves s.ctx s.thread.pc) (thread_step crates s.ctx s.thread)
                      (thread_step-Serves crates laws s.ctx s.thread w.service.healthy
                        w.service.alive)
                      step in
                  let one : some (ctx, t) ≡ some (c', u') =
                    sym step ∙ ap₂ (thread_step crates) ec et ∙ moved in
                  awake k (stepped_to s ctx t) (ground (arith, one)) (ground (arith, one))
                    (stepped-Working n s ctx t w step) (keeps s.ctx ctx serves.signal ∙ same)
            ])

      at_work :
          (flag : Bool)
          (woken : flag ≡ true
            → (t : System) → Working n t
            → t.ctx.log_signal ≡ false
            → Ends crates IsQuiet t)
          (s : System)
          → Working n s
          → s.ctx.log_signal ≡ flag
          → Ends crates IsQuiet s
      at_work flag woken s w same =
          awake flag woken (thread-Settles crates s.ctx s.thread w.clean) s refl refl w same

      of_calls : (s : System) → Working n s → Ends crates IsQuiet s
      of_calls s w =
          at_work s.ctx.log_signal (λ set. at_work false (λ again. absurd (ground (arith, again))))
            s w refl

    ends : (n : ℕ) (s : System) → Working n s → Ends crates IsQuiet s
    ends zero = of_calls zero (λ m e. absurd (omega (arith, e)))
    ends (suc n) = of_calls (suc n) (λ m e t w. ends n t (record {
      service = w.service;
      clean = w.clean;
      under_way = omega (arith, e, w.under_way);
    }))

    -- From a healthy logger at work, its own events always come to an end, and that is quiet.
    pub run-Ends : (s : System) → InService s → HasCleanPool s.thread → Ends crates IsQuiet s
    run-Ends s h clean = ends s.pending s (record { service = h; clean = clean; under_way = refl })
