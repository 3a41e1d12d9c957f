-- ===== src/Chunks/Laws.antt =====
-- What cutting a batch keeps and what it drops.
use paperlog.Base.{
  ℕ, suc, ◌≡◌, refl, Text, List, [], ◌∷◌, ◌++◌, map, concat, concat-append, Option, none, some,
  arith, append_assoc, All, All-append, ap, sym, ◌∙◌,
}
use paperlog.LogData.{LogData}
use paperlog.Chunks.{
  IsChunks, split_lines, append_option, chunk_lines, with_message, split_log, split_str_into_chunks,
}
use paperlog.Chunks.Lines.{
  split_lines-cons, without_breaks, concat-split_lines, OneLine, join_lines-split_lines,
  split_lines-OneLine, IsPiece, Filled-IsPiece, pieces-of-nil, CutLines, PiecesOf,
}

append_option-nil {ℓ} : {A : Type ℓ} (o : Option (List A)) → append_option (some []) o ≡ o
append_option-nil none = refl
append_option-nil (some xs) = refl

append_option_assoc {ℓ} :
    {A : Type ℓ} (a b c : Option (List A))
    → append_option a (append_option b c) ≡ append_option (append_option a b) c
append_option_assoc none b c = refl
append_option_assoc (some xs) none c = refl
append_option_assoc (some xs) (some ys) none = refl
append_option_assoc (some xs) (some ys) (some zs) = rw append_assoc

-- `out` is the batch cut up: each entry is replaced, in order, by copies of itself that carry the
-- pieces of its message.
abbrev pub CutOf : ℕ → List LogData → List LogData → Type 0
CutOf n [] out = out ≡ []
CutOf n (log ∷ queue) out =
    (cs : List Text) × (rest : List LogData) × (out ≡ map (with_message log) cs ++ rest)
    × PiecesOf n log.message cs
    × CutOf n queue rest

module _ {chunks : ℕ → Text → Option (List Text)} (laws : IsChunks chunks) where
  chunk_lines_lem :
      (n : ℕ) (ls : List Text)
      → All OneLine ls
      → (cs : List Text) × (chunk_lines chunks (suc n) ls ≡ some cs)
        × (concat cs ≡ concat ls)
        × All (IsPiece (suc n)) cs
        × CutLines (suc n) ls cs
  unfolding chunk_lines
  chunk_lines_lem n [] a = ([], refl, refl, tt, refl)
  chunk_lines_lem n (l ∷ ls) a =
      let (cs, e, joined, filled) = laws.cuts n l in
      let (ds, e', joined', pieces, cut) = chunk_lines_lem n ls a.1 in
      (
        cs ++ ds,
        rw (e, e'),
        rw (concat-append cs ds, joined, joined'),
        All-append (IsPiece (suc n)) cs ds (Filled-IsPiece n cs filled (rw joined a.0)) pieces,
        (cs, ds, refl, joined, filled, cut),
      )

  -- With a positive limit an entry is cut into copies of itself that carry the pieces of its
  -- message.
  pub split_log-PiecesOf :
      (n : ℕ) (log : LogData)
      → (cs : List Text) × (split_log chunks (suc n) log ≡ some (map (with_message log) cs))
        × PiecesOf (suc n) log.message cs
  unfolding split_log
  split_log-PiecesOf n log =
      let (cs, e, joined, pieces, cut) =
        chunk_lines_lem n (split_lines log.message) (split_lines-OneLine log.message) in
      (
        cs,
        rw e,
        (
          joined ∙ concat-split_lines log.message,
          pieces,
          (
            split_lines log.message,
            join_lines-split_lines log.message,
            split_lines-OneLine log.message,
            cut,
          ),
        ),
      )

  -- With a positive limit a batch is cut entry by entry, in order: each is replaced by copies of
  -- itself that carry the pieces of its message. The message is parted at its line breaks, and the
  -- pieces are those of its lines, one line after the other, each in pieces of exactly the limit but
  -- for the line's last, which may be shorter. No piece is empty, exceeds the limit or has a line
  -- break in it, and joined they are the message without its line breaks.
  pub split_str_into_chunks-CutOf :
      (n : ℕ) (queue : List LogData)
      → (out : List LogData) × (split_str_into_chunks chunks queue (suc n) ≡ some out)
        × CutOf (suc n) queue out
  unfolding split_str_into_chunks
  split_str_into_chunks-CutOf n [] = ([], refl, refl)
  split_str_into_chunks-CutOf n (log ∷ queue) =
      let (cs, e, pieces) = split_log-PiecesOf n log in
      let (rest, e', cut) = split_str_into_chunks-CutOf n queue in
      (map (with_message log) cs ++ rest, rw (e, e'), (cs, rest, refl, pieces, cut))

  -- With a positive limit, an entry whose message is empty, or only line breaks, is cut into
  -- nothing.
  split_log-blank :
      (n : ℕ) (log : LogData)
      → without_breaks log.message ≡ []
      → split_log chunks (suc n) log ≡ some []
  split_log-blank n log blank =
      let (cs, e, p) = split_log-PiecesOf n log in
      e ∙ ap (λ ds. some (map (with_message log) ds)) (pieces-of-nil (suc n) cs p.1 (p.0 ∙ blank))

  -- With the limit 0 any batch that has an entry panics.
  pub split_str_into_chunks-zero :
      (log : LogData) (queue : List LogData) → split_str_into_chunks chunks (log ∷ queue) 0 ≡ none
  unfolding split_str_into_chunks split_log chunk_lines
  split_str_into_chunks-zero log queue =
      let (l, ls, e) = split_lines-cons log.message in rw (e, chunk_lines, laws.at_zero l)

-- Two batches cut one after the other give what the batch of both gives, panics included.
pub split_str_into_chunks-append :
    (chunks : ℕ → Text → Option (List Text)) (n : ℕ) (p q : List LogData)
    → split_str_into_chunks chunks (p ++ q) n
      ≡ append_option (split_str_into_chunks chunks p n) (split_str_into_chunks chunks q n)
unfolding split_str_into_chunks
split_str_into_chunks-append chunks n [] q =
    sym (append_option-nil (split_str_into_chunks chunks q n))
split_str_into_chunks-append chunks n (log ∷ p) q =
    rw (split_str_into_chunks-append chunks n p q)
      (append_option_assoc (split_log chunks n log) _ _)

append_option-some {ℓ} :
    {A : Type ℓ} (a b : Option (List A)) (out : List A)
    → append_option a b ≡ some out
    → (x : List A) × (y : List A) × (a ≡ some x) × (b ≡ some y) × (out ≡ x ++ y)
append_option-some none b out e = absurd (ground (arith, e))
append_option-some (some x) none out e = absurd (ground (arith, e))
append_option-some (some x) (some y) out e = (x, y, refl, refl, ground (arith, e))

-- The pieces of a batch in two parts.
pub split_str_into_chunks-some :
    (chunks : ℕ → Text → Option (List Text)) (n : ℕ) (p q out : List LogData)
    → split_str_into_chunks chunks (p ++ q) n ≡ some out
    → (first : List LogData) × (second : List LogData) × (split_str_into_chunks chunks p n
        ≡ some first)
      × (split_str_into_chunks chunks q n ≡ some second)
      × (out ≡ first ++ second)
split_str_into_chunks-some chunks n p q out e =
    append_option-some (split_str_into_chunks chunks p n) (split_str_into_chunks chunks q n) out
      (sym (split_str_into_chunks-append chunks n p q) ∙ e)
