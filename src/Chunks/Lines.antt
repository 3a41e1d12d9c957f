-- ===== src/Chunks/Lines.antt =====
-- The lines of a message, and the pieces of a text.
use paperlog.Base.{
  ℕ, suc, ◌≤◌, ◌<◌, ◌≡◌, refl, ◌≢◌, ◌==◌, if◌then◌else◌, Text, List, [], ◌∷◌, ◌++◌, concat, length,
  newline, count, count-append, arith, All, Bool-cases, inl, inr, ap, sym, ◌∙◌, ==_iff,
}
use paperlog.Chunks.{Filled, push_first, split_lines}

-- A message with its line breaks taken out.
unfoldable pub without_breaks : Text → Text
without_breaks [] = []
without_breaks (c ∷ s) = if c == newline then without_breaks s else c ∷ without_breaks s

concat-push_first : (c : ℕ) (ls : List Text) → concat (push_first c ls) ≡ c ∷ concat ls
unfolding push_first
concat-push_first c [] = refl
concat-push_first c (l ∷ ls) = refl

pub concat-split_lines : (s : Text) → concat (split_lines s) ≡ without_breaks s
unfolding split_lines without_breaks
concat-split_lines [] = refl
concat-split_lines (c ∷ s) =
    ground (arith, concat-split_lines s, concat-push_first c (split_lines s))

pub split_lines-cons : (s : Text) → (l : Text) × (ls : List Text) × (split_lines s ≡ l ∷ ls)
unfolding split_lines push_first
split_lines-cons [] = ([], [], refl)
split_lines-cons (c ∷ s) =
    let (l, ls, e) = split_lines-cons s in
    elim (Bool-cases (c == newline)) [
      | inl hit ↦ ([], split_lines s, rw hit)
      | inr miss ↦ (c ∷ l, ls, rw (miss, e))
    ]

abbrev pub OneLine : Text → Type 0
OneLine s = count newline s ≡ 0

-- Lines with a line break between each two.
unfoldable pub join_lines : List Text → Text
join_lines [] = []
join_lines (l ∷ []) = l
join_lines (l ∷ m ∷ ls) = l ++ newline ∷ join_lines (m ∷ ls)

join_lines-push_first :
    (c : ℕ) (l : Text) (ls : List Text)
    → join_lines (push_first c (l ∷ ls)) ≡ c ∷ join_lines (l ∷ ls)
unfolding join_lines push_first
join_lines-push_first c l [] = refl
join_lines-push_first c l (m ∷ ls) = refl

-- The lines, joined again, are the text.
pub join_lines-split_lines : (s : Text) → join_lines (split_lines s) ≡ s
unfolding join_lines split_lines
join_lines-split_lines [] = refl
join_lines-split_lines (c ∷ s) =
    let (l, ls, e) = split_lines-cons s in
    let whole : join_lines (l ∷ ls) ≡ s = ap join_lines (sym e) ∙ join_lines-split_lines s in
    elim (Bool-cases (c == newline)) [
      | inl hit ↦
          let same : c ≡ newline = ground (arith, hit, ==_iff c newline) in
          rw (hit, e) (rw (same) (ap (◌∷◌ newline) whole))
      | inr miss ↦ rw (miss, e) (join_lines-push_first c l ls ∙ ap (◌∷◌ c) whole)
    ]

push_first-OneLine :
    (c : ℕ) (ls : List Text) → c ≢ newline → All OneLine ls → All OneLine (push_first c ls)
unfolding push_first
push_first-OneLine c [] h a = ground arith
push_first-OneLine c (l ∷ ls) h a = ground arith

pub split_lines-OneLine : (s : Text) → All OneLine (split_lines s)
unfolding split_lines
split_lines-OneLine [] = ground arith
split_lines-OneLine (c ∷ s) =
    ground (arith, split_lines-OneLine s, push_first-OneLine c (split_lines s))

-- What a chunk of a line is: not empty, at most `n` characters, and no line break.
abbrev pub IsPiece : ℕ → Text → Type 0
IsPiece n s = (0 < length s) × (length s ≤ n) × (count newline s ≡ 0)

pub Filled-IsPiece :
    (n : ℕ) (cs : List Text)
    → Filled (suc n) cs
    → count newline (concat cs) ≡ 0
    → All (IsPiece (suc n)) cs
Filled-IsPiece n [] f e = tt
Filled-IsPiece n (c ∷ []) f e = ((f.0, f.1, omega (arith, count-append newline c [])), tt)
Filled-IsPiece n (c ∷ d ∷ cs) f e =
    let sum = count-append newline c (concat (d ∷ cs)) in
    (
      (omega (arith, f.0), omega (arith, f.0), omega (arith, sum)),
      Filled-IsPiece n (d ∷ cs) f.1 (omega (arith, sum)),
    )

-- No piece at all is left of an empty text.
pub pieces-of-nil : (n : ℕ) (cs : List Text) → All (IsPiece n) cs → concat cs ≡ [] → cs ≡ []
pieces-of-nil n [] a e = refl
pieces-of-nil n ([] ∷ cs) a e = absurd (omega (arith, a.0.0))
pieces-of-nil n ((x ∷ c) ∷ cs) a e = cc

-- The pieces `cs` of some lines: line after line, each in chunks that are full but for its last.
abbrev pub CutLines : ℕ → List Text → List Text → Type 0
CutLines n [] cs = cs ≡ []
CutLines n (l ∷ ls) cs =
    (of_line : List Text) × (rest : List Text) × (cs ≡ of_line ++ rest)
    × (concat of_line ≡ l)
    × Filled n of_line
    × CutLines n ls rest

-- They are the pieces of the lines of a text.
abbrev pub CutText : ℕ → Text → List Text → Type 0
CutText n s cs =
    (lines : List Text) × (join_lines lines ≡ s) × All OneLine lines × CutLines n lines cs

-- The pieces `cs` of a text.
abbrev pub PiecesOf : ℕ → Text → List Text → Type 0
PiecesOf n s cs = (concat cs ≡ without_breaks s) × All (IsPiece n) cs × CutText n s cs
