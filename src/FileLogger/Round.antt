-- ===== src/FileLogger/Round.antt =====
-- One round of the batch, when no write fails.
use paperlog.Base.{
  ◌≡◌, ◌⊎◌, refl, Bool, false, Text, ◌++◌, Option, none, some, text_eq, text_eq_iff, if◌then◌else◌,
  arith, Option-cases, inl, inr,
}
use paperlog.Io.{OutFile, IoResult, Sound, write_text}
use paperlog.TextMap.{get, insert, get-insert}
use paperlog.LogData.{LogData, Instant, write_to_io, write_compact_to_io, full_line, compact_line}
use paperlog.LoggerThreadCtx.{LoggerThreadCtx}
use paperlog.FileLogger.{write_context, batch_tag, batch_round}

-- `f` after a text was written to it without an error.
abbrev pub extended : Text → OutFile → OutFile
extended t f = record f { text = f.text ++ t }

write_text-Sound : (f : OutFile) (t : Text) → Sound f → write_text f t ≡ (extended t f, none)
unfolding write_text
write_text-Sound f t h = ground arith

-- No write that is still to come fails.
pub record AllSound (ctx : LoggerThreadCtx) : Type 0 where
  pub global : Sound ctx.global_file
  pub contexts : (k : Text) (f : OutFile) → get k ctx.context_map ≡ some f → Sound f

abbrev pub has_tag : Text → Option Text → Bool
has_tag k none = false
has_tag k (some t) = text_eq t k

abbrev pub option_map {ℓ κ} : {A : Type ℓ} {B : Type κ} → (A → B) → Option A → Option B
option_map f none = none
option_map f (some a) = some (f a)

module _ (format_time : Instant → Text) where
  -- What one round does to the file of `k`.
  abbrev pub context_step : Text → LogData → Option OutFile → Option OutFile
  context_step k log o =
      if has_tag k log.tag then option_map (extended (compact_line format_time log)) o else o

  -- A round without an error, and the state after it.
  pub record Round (log : LogData) (ctx : LoggerThreadCtx) (out : LoggerThreadCtx × IoResult)
      : Type 0 where
    pub fine : out.1 ≡ none
    pub global : out.0.global_file ≡ extended (full_line format_time log) ctx.global_file
    pub contexts : (k : Text) → get k out.0.context_map ≡ context_step k log (get k ctx.context_map)
    pub rest :
        out.0 ≡ record ctx { global_file = out.0.global_file; context_map = out.0.context_map }

  write_context-get :
      (log : LogData) (ctx : LoggerThreadCtx) (tag : Text) (f : OutFile)
      → log.tag ≡ some tag
      → get tag ctx.context_map ≡ some f
      → (k : Text)
      → get k (insert tag (extended (compact_line format_time log) f) ctx.context_map)
        ≡ context_step k log (get k ctx.context_map)
  write_context-get log ctx tag f e found k = ground (
    arith,
    get-insert tag k (extended (compact_line format_time log) f) ctx.context_map,
    text_eq_iff tag k,
  )

  batch_round-plain :
      (log : LogData) (ctx : LoggerThreadCtx)
      → AllSound ctx
      → (log.tag ≡ none) ⊎ ((tag : Text) × (log.tag ≡ some tag) × (get tag ctx.context_map ≡ none))
      → batch_round format_time log ctx
        ≡ (record ctx { global_file = extended (full_line format_time log) ctx.global_file }, none)
  unfolding batch_round batch_tag write_to_io
  batch_round-plain log ctx s h =
      ground (arith, write_text-Sound ctx.global_file (full_line format_time log) s.global)

  batch_round-context :
      (log : LogData) (ctx : LoggerThreadCtx) (tag : Text) (f : OutFile)
      → AllSound ctx
      → log.tag ≡ some tag
      → get tag ctx.context_map ≡ some f
      → batch_round format_time log ctx ≡ (
        record ctx {
          global_file = extended (full_line format_time log) ctx.global_file;
          context_map = insert tag (extended (compact_line format_time log) f) ctx.context_map;
        },
        none,
      )
  unfolding batch_round batch_tag write_context write_to_io write_compact_to_io
  batch_round-context log ctx tag f s e found = ground (
    arith,
    write_text-Sound ctx.global_file (full_line format_time log) s.global,
    write_text-Sound f (compact_line format_time log) (s.contexts tag f found),
  )

  plain-Round :
      (log : LogData) (ctx : LoggerThreadCtx)
      → AllSound ctx
      → (log.tag ≡ none) ⊎ ((tag : Text) × (log.tag ≡ some tag) × (get tag ctx.context_map ≡ none))
      → Round log ctx (batch_round format_time log ctx)
  plain-Round log ctx s h =
      rw (batch_round-plain log ctx s h)
        (record { fine = refl; global = refl; contexts = λ k. plain-get k h; rest = refl })
    where
      plain-get :
          (k : Text)
          → (log.tag ≡ none)
            ⊎ ((tag : Text) × (log.tag ≡ some tag) × (get tag ctx.context_map ≡ none))
          → get k ctx.context_map ≡ context_step k log (get k ctx.context_map)
      plain-get k (inl untagged) = rw untagged
      plain-get k (inr (tag, e, missing)) = ground (arith, text_eq_iff tag k)

  pub batch_round-Round :
      (log : LogData) (ctx : LoggerThreadCtx)
      → AllSound ctx
      → Round log ctx (batch_round format_time log ctx)
  batch_round-Round log ctx s = elim (Option-cases log.tag) [
    | inl untagged ↦ plain-Round log ctx s (inl untagged)
    | inr (tag, e) ↦ elim (Option-cases (get tag ctx.context_map)) [
      | inl missing ↦ plain-Round log ctx s (inr (tag, e, missing))
      | inr (f, found) ↦ rw (batch_round-context log ctx tag f s e found) (record {
        fine = refl;
        global = refl;
        contexts = write_context-get log ctx tag f e found;
        rest = refl;
      })
    ]
  ]
