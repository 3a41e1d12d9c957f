-- ===== src/Chunks.antt =====
-- src/logger/logger_thread_ctx.rs, split_str_into_chunks: a batch of entries is cut into entries
-- of one line and bounded length each. itertools' `chunks` is a parameter: `IsChunks` states what
-- its documentation promises. It panics at size 0, which is `none` here and in what calls it.
pub mod Bounds
pub mod Lines
pub mod Laws
use paperlog.Base.{
  ℕ, zero, suc, ◌≤◌, ◌<◌, ◌≡◌, ◌==◌, if◌then◌else◌, Text, List, [], ◌∷◌, ◌++◌, map, concat, length,
  Option, none, some, newline,
}
use paperlog.LogData.{LogData}

-- The chunks of a sequence: each has exactly `n` items, but the last may have fewer, not none.
abbrev pub Filled : ℕ → List Text → Type 0
Filled n [] = Unit
Filled n (c ∷ []) = (0 < length c) × (length c ≤ n)
Filled n (c ∷ d ∷ cs) = (length c ≡ n) × Filled n (d ∷ cs)

-- What itertools says of `s.chars().chunks(n)`, collected.
pub record IsChunks (chunks : ℕ → Text → Option (List Text)) : Type 0 where
  pub at_zero : (s : Text) → chunks zero s ≡ none
  pub cuts :
      (n : ℕ) (s : Text)
      → (cs : List Text) × (chunks (suc n) s ≡ some cs) × (concat cs ≡ s) × Filled (suc n) cs

-- `str::split("\n")`: the first line takes the character.
push_first : ℕ → List Text → List Text
push_first c [] = (c ∷ []) ∷ []
push_first c (l ∷ ls) = (c ∷ l) ∷ ls

unfoldable pub split_lines : Text → List Text
unfolding push_first
split_lines [] = [] ∷ []
split_lines (c ∷ s) = if c == newline then [] ∷ split_lines s else push_first c (split_lines s)

abbrev pub append_option {ℓ} : {A : Type ℓ} → Option (List A) → Option (List A) → Option (List A)
append_option none ys = none
append_option (some xs) none = none
append_option (some xs) (some ys) = some (xs ++ ys)

abbrev pub with_message : LogData → Text → LogData
with_message log chunk = record log { message = chunk }

abbrev pub with_messages : LogData → Option (List Text) → Option (List LogData)
with_messages log none = none
with_messages log (some cs) = some (map (with_message log) cs)

module _ (chunks : ℕ → Text → Option (List Text)) where
  -- The inner `flat_map`: the chunks of each line, in order.
  unfoldable pub chunk_lines : ℕ → List Text → Option (List Text)
  chunk_lines n [] = some []
  chunk_lines n (l ∷ ls) = append_option (chunks n l) (chunk_lines n ls)

  -- One entry cut up.
  unfoldable pub split_log : ℕ → LogData → Option (List LogData)
  split_log n log = with_messages log (chunk_lines n (split_lines log.message))

  unfoldable pub split_str_into_chunks : List LogData → ℕ → Option (List LogData)
  split_str_into_chunks [] n = some []
  split_str_into_chunks (log ∷ queue) n =
      append_option (split_log n log) (split_str_into_chunks queue n)
