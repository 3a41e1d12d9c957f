-- ===== src/LoggerThreadCtx/AnyOrder.antt =====
-- A flush goes through the values of a hash map, whose order is not specified.
use paperlog.Base.{
  Text, ◌≡◌, ◌⊎◌, refl, ap, inl, inr, true, List, [], ◌∷◌, map, All, Option, none, some, arith,
  Option-cases, subst,
}
use mathlib.Core.List.{Permᴰ}
use mathlib.Core.List.Permᴰ
use paperlog.Io.{IoError, OutFile, flush_file}
use paperlog.TextMap.{TextMap, AllValues}
use paperlog.LoggerThreadCtx.{LoggerThreadCtx, flush, flush_all}

All-Permᴰ {ℓ κ} : {A : Type ℓ} (P : A → Type κ) {xs ys : List A} → Permᴰ xs ys → All P xs → All P ys
All-Permᴰ P Permᴰ.nil a = tt
All-Permᴰ P (Permᴰ.cons e d) a = (subst P e a.0, All-Permᴰ P d a.1)
All-Permᴰ P (Permᴰ.swap e f) a = (subst P f a.1.0, (subst P e a.0, a.1.1))
All-Permᴰ P (Permᴰ.trans d e) a = All-Permᴰ P e (All-Permᴰ P d a)

-- A flush of the file succeeds.
abbrev Flushes : OutFile → Type 0
Flushes f = (flush_file f).1 ≡ none

abbrev Entry : Type 0
Entry = record { key : Text; value : OutFile }

abbrev flushed : Entry → Entry
flushed e = record e { value = (flush_file e.value).0 }

abbrev all_flushed : TextMap OutFile → TextMap OutFile
all_flushed m = map flushed m

flush_all-fine : (m : TextMap OutFile) → AllValues Flushes m → flush_all m ≡ (all_flushed m, none)
unfolding flush_all
flush_all-fine [] a = refl
flush_all-fine (e ∷ m) a = rw (a.0, flush_all, flush_all-fine m a.1) refl

flush_all-cases :
    (m : TextMap OutFile)
    → AllValues Flushes m ⊎ ((e : IoError) × ((flush_all m).1 ≡ some e) × ¬ AllValues Flushes m)
unfolding flush_all
flush_all-cases [] = inl tt
flush_all-cases (e ∷ m) = elim (Option-cases (flush_file e.value).1) [
  | inr (x, failed) ↦ inr (x, ground arith, λ a. ground arith)
  | inl fine ↦ elim (flush_all-cases m) [
    | inl all ↦ inl (fine, all)
    | inr (x, failed, some_fails) ↦ inr (x, ground arith, λ a. some_fails a.1)
  ]
]

-- Both flushes succeed, with the same files but for their order, or both fail.
pub data Agree (before : LoggerThreadCtx)
    : LoggerThreadCtx × Option IoError → LoggerThreadCtx × Option IoError → Type 0 where
  both_flush :
      {a b : LoggerThreadCtx}
      → Permᴰ a.context_map b.context_map
      → record a { context_map = b.context_map } ≡ b
      → a.flush_signal ≡ true
      → Agree before (a, none) (b, none)
  both_fail :
      {a b : LoggerThreadCtx} {e f : IoError}
      → a.flush_signal ≡ before.flush_signal
      → b.flush_signal ≡ before.flush_signal
      → Agree before (a, some e) (b, some f)

-- In whatever order the map gives its files, a flush succeeds or fails all the same; where it
-- succeeds, every file ends the same and the flush semaphore is signalled, and where it fails, it is
-- not.
pub flush-Agree :
    (ctx : LoggerThreadCtx) (m : TextMap OutFile)
    → Permᴰ ctx.context_map m
    → Agree ctx (flush ctx) (flush (record ctx { context_map = m }))
unfolding flush
flush-Agree ctx m order = elim (Option-cases (flush_file ctx.global_file).1) [
  | inr (e, failed) ↦ rw (failed, flush) (both_fail refl refl)
  | inl fine ↦ elim (flush_all-cases ctx.context_map) [
    | inl all ↦
        let here = flush_all-fine ctx.context_map all in
        let there = flush_all-fine m (All-Permᴰ (λ (e : Entry). Flushes e.value) order all) in
        rw
          (
            fine,
            flush,
            ap (λ r. r.1) here,
            ap (λ r. r.1) there,
            ap (λ r. r.0) here,
            ap (λ r. r.0) there,
          )
          (both_flush (Permᴰ.map flushed order) refl refl)
    | inr (e, failed, some_fails) ↦ elim (flush_all-cases m) [
      | inl all ↦
          absurd (some_fails (All-Permᴰ (λ (e : Entry). Flushes e.value) (Permᴰ.symm order) all))
      | inr (f, failed', _) ↦ rw (fine, flush, failed, failed') (both_fail refl refl)
    ]
  ]
]
