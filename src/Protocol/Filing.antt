-- ===== src/Protocol/Filing.antt =====
-- The file of one context, along a schedule.
use paperlog.Base.{
  ◌⊎◌, inl, inr, none, ℕ, ◌≡◌, refl, sym, ap, ◌∙◌, Text, List, [], ◌++◌, some, All, OnSome-some,
  append-nil,
}
use paperlog.Io.{OutFile}
use paperlog.TextMap.{get}
use paperlog.Chunks.{split_str_into_chunks}
use paperlog.FileLogger.Context.{text_at}
use paperlog.FileLogger.Round.{option_map}
use paperlog.LoggerThreadCtx.{LoggerThreadCtx}
use paperlog.LogThread.{Crates, start_thread, thread_step, takes}
use paperlog.LogThread.Filed.{Filed, FiledBy, thread_step-Filed}
use paperlog.Protocol.{System, Event, run, start}
use paperlog.Protocol.Contexts.{Apart, Spares, Spares-LeavesTag, Spares-opens}
use paperlog.LogThread.Contexts.{LacksOut, thread_step-Lacks}
use paperlog.LogThread.Order.{Keeps, thread_step-Keeps}
use paperlog.Protocol.Schedules.{run-keeps}
use paperlog.Protocol.Moves.{
  Move, queues, signalled, stepped, requests, waits, wakes, gives_up, administers,
}
use paperlog.Protocol.Record.{Recorded, Move-Recorded, IsNew, start-Recorded}

module _ (crates : Crates) (dir k base : Text) (n : ℕ) where
  abbrev pub FileHas : System → Type 0
  FileHas s = Filed crates k base n s.thread.pc s.took (text_at k s.ctx.context_map)

  Move-FileHas :
      {e : Event} {s t : System}
      → Spares dir k e
      → Move crates e s t
      → Recorded crates n s
      → FileHas s
      → FileHas t
  Move-FileHas a (queues logs b free eq) r h = rw eq h
  Move-FileHas a (signalled m p eq) r h = rw eq h
  Move-FileHas {s = s} a (stepped ctx thread moved free eq) r h = rw eq (
      OnSome-some (FiledBy crates k base n (s.took ++ takes s.thread.pc s.ctx))
        (thread_step crates s.ctx s.thread)
        (thread_step-Filed crates k base n s.took s.ctx s.thread r.limit h) moved)
  Move-FileHas a (requests w p eq) r h = rw eq h
  Move-FileHas a (waits w d b p eq) r h = rw eq h
  Move-FileHas a (wakes w d b p eq) r h = rw eq h
  Move-FileHas a (gives_up d p eq) r h = rw eq h
  Move-FileHas {e} {s} a (administers ctx free quiet out keeps spares eq) r h =
      rw (eq, spares.same k (Spares-LeavesTag dir k e a)) h

  -- The context lies in the directory, and every other tag that has a writer has another file.
  abbrev pub IsAlone : LoggerThreadCtx → Type 0
  IsAlone ctx =
      (ctx.config.context_log_path ≡ dir)
      × ((tag : Text) → (get tag ctx.context_map ≡ none) ⊎ (tag ≡ k) ⊎ Apart dir tag k)

  still-IsAlone :
      (a b : LoggerThreadCtx)
      → b.config ≡ a.config
      → ((tag : Text)
          → get tag a.context_map ≡ none
          → (get tag b.context_map ≡ none) ⊎ Apart dir tag k)
      → IsAlone a
      → IsAlone b
  still-IsAlone a b config none_new (lies, others) = (
    ap (λ c. c.context_log_path) config ∙ lies,
    λ tag. elim (others tag) [
      | inr other ↦ inr other
      | inl nothing ↦ elim (none_new tag nothing) [
        | inl still ↦ inl still
        | inr apart ↦ inr (inr apart)
      ]
    ],
  )

  Move-IsAlone :
      {e : Event} {s t : System}
      → Spares dir k e
      → Move crates e s t
      → Recorded crates n s
      → IsAlone s.ctx
      → IsAlone t.ctx
  Move-IsAlone a (queues logs b free eq) r h = rw eq h
  Move-IsAlone a (signalled m p eq) r h = rw eq h
  Move-IsAlone {s = s} a (stepped ctx thread moved free eq) r h =
      let step = thread_step crates s.ctx s.thread in
      let keeps =
        OnSome-some (Keeps crates s.ctx s.thread.pc) step
          (thread_step-Keeps crates s.ctx s.thread r.order.clean) moved in
      rw eq (
        still-IsAlone s.ctx ctx keeps.config
          (λ tag nothing. inl (
            OnSome-some (LacksOut crates tag) step
              (thread_step-Lacks crates tag s.ctx s.thread nothing) moved))
          h)
  Move-IsAlone a (requests w p eq) r h = rw eq h
  Move-IsAlone a (waits w d b p eq) r h = rw eq h
  Move-IsAlone a (wakes w d b p eq) r h = rw eq h
  Move-IsAlone a (gives_up d p eq) r h = rw eq h
  Move-IsAlone {e} {s} a (administers ctx free quiet out keeps spares eq) r h = rw eq (
      still-IsAlone s.ctx ctx out.config
        (λ tag nothing. elim (Spares-opens dir k e tag a) [
          | inl closed ↦ inl (spares.none_new tag closed nothing)
          | inr apart ↦ inr apart
        ])
        h)

  -- What the file of the context holds, and that nothing else is written to it.
  pub record OwnFile (s : System) : Type 0 where
    pub has : FileHas s
    pub alone : IsAlone s.ctx

module _ (crates : Crates) where
  start-FileHas :
      (ctx : LoggerThreadCtx) (k : Text) (f : OutFile)
      → get k ctx.context_map ≡ some f
      → FileHas crates ctx.config.context_log_path k f.text ctx.config.max_string_len (start ctx)
  unfolding start start_thread split_str_into_chunks
  start-FileHas ctx k f found =
      ([], refl, ap (option_map (λ f. f.text)) found ∙ ap some (sym (append-nil f.text)))

  -- In every state that a schedule reaches from a new logger which has a file for a context, if the
  -- schedule neither opens nor closes that file by whatever tag and registers only plain names, and no other context that is open at
  -- the start has it: the file holds what it had and behind it, in order, the compact lines of the
  -- pieces of the entries taken whose tag is the context, but for the batch in hand, as long as the
  -- thread has not failed or panicked (`Filed` says it for each place of the thread), and every other
  -- open context is a plain name at another path in the directory, so that no other context's entries
  -- go there. Writes and sinks may fail, and other contexts may come and go. The global log is no
  -- context: that it lies elsewhere is not said here.
  pub run-OwnFile :
      (ctx : LoggerThreadCtx) (k : Text) (f : OutFile) (es : List Event) (s : System)
      → IsNew ctx
      → get k ctx.context_map ≡ some f
      → ((tag : Text)
          → (get tag ctx.context_map ≡ none) ⊎ (tag ≡ k) ⊎ Apart ctx.config.context_log_path tag k)
      → All (Spares ctx.config.context_log_path k) es
      → run crates es (start ctx) ≡ some s
      → OwnFile crates ctx.config.context_log_path k f.text ctx.config.max_string_len s
  unfolding start
  run-OwnFile ctx k f es s new found others spared ran =
      let n = ctx.config.max_string_len in
      let dir = ctx.config.context_log_path in
      (run-keeps crates (λ s. Recorded crates n s × OwnFile crates dir k f.text n s) (Spares dir k)
        (λ e s t a m p. (
          Move-Recorded crates n m p.0,
          record {
            has = Move-FileHas crates dir k f.text n a m p.0 p.1.has;
            alone = Move-IsAlone crates dir k f.text n a m p.0 p.1.alone;
          },
        ))
        es (start ctx) s spared
        (
          start-Recorded crates ctx new,
          record { has = start-FileHas ctx k f found; alone = (refl, others) },
        )
        ran).1
