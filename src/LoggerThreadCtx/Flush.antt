-- ===== src/LoggerThreadCtx/Flush.antt =====
-- What a flush has done when it returns.
use paperlog.Base.{
  ◌≡◌, ◌⊎◌, refl, inl, inr, true, [], ◌∷◌, length, All, none, some, arith, Option-cases,
}
use paperlog.Io.{IoError, OutFile, flush_file}
use paperlog.TextMap.{TextMap}
use paperlog.LoggerThreadCtx.{LoggerThreadCtx, flush, flush_all}

-- All that a writer accepted was pushed out.
abbrev pub IsPushed : OutFile → Type 0
IsPushed f = f.flushed ≡ length f.text

-- So it is for the global file and every context.
pub record AllPushed (ctx : LoggerThreadCtx) : Type 0 where
  pub global : IsPushed ctx.global_file
  pub contexts : All (λ e. IsPushed e.value) ctx.context_map

flush_file-IsPushed : (f : OutFile) → (flush_file f).1 ≡ none → IsPushed (flush_file f).0
unfolding flush_file
flush_file-IsPushed f h = ground arith

flush_all-IsPushed :
    (m : TextMap OutFile) → (flush_all m).1 ≡ none → All (λ e. IsPushed e.value) (flush_all m).0
unfolding flush_all
flush_all-IsPushed [] h = tt
flush_all-IsPushed (e ∷ m) h = ground (arith, flush_file-IsPushed e.value, flush_all-IsPushed m)

-- A flush either succeeds, with everything pushed out and its semaphore signalled, or it returns
-- an error and gives no signal.
pub flush-AllPushed :
    (ctx : LoggerThreadCtx)
    → (((flush ctx).1 ≡ none) × AllPushed (flush ctx).0 × ((flush ctx).0.flush_signal ≡ true))
      ⊎ ((e : IoError) × ((flush ctx).1 ≡ some e) × ((flush ctx).0.flush_signal ≡ ctx.flush_signal))
unfolding flush
flush-AllPushed ctx = elim (Option-cases (flush_file ctx.global_file).1) [
  | inr (e, failed) ↦ inr (e, ground arith, ground arith)
  | inl fine ↦ elim (Option-cases (flush_all ctx.context_map).1) [
    | inr (e, failed) ↦ inr (e, ground arith, ground arith)
    | inl fine' ↦
        let g = flush_file-IsPushed ctx.global_file fine in
        let c = flush_all-IsPushed ctx.context_map fine' in
        inl (rw (fine, fine', flush) (refl, record { global = g; contexts = c }, refl))
  ]
]
