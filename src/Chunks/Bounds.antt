-- ===== src/Chunks/Bounds.antt =====
-- Bounds on what a batch is cut into.
use paperlog.Base.{
  ℕ, zero, suc, ◌+◌, ◌≤◌, ◌<◌, ◌≡◌, refl, sym, ap, ◌∙◌, subst, Text, List, [], ◌∷◌, ◌++◌, map,
  concat, length, length-append, Option, some, arith, All, All-append, All-front,
}
use paperlog.LogData.{LogData}
use paperlog.Chunks.{IsChunks, with_message, split_str_into_chunks}
use paperlog.Chunks.Lines.{without_breaks, IsPiece, PiecesOf}
use paperlog.Chunks.Laws.{CutOf, split_str_into_chunks-CutOf}

-- The characters of the messages of some entries.
unfoldable pub chars : List LogData → ℕ
chars [] = 0
chars (log ∷ logs) = length log.message + chars logs

chars-append : (xs ys : List LogData) → chars (xs ++ ys) ≡ chars xs + chars ys
unfolding chars
chars-append [] ys = omega arith
chars-append (log ∷ xs) ys = omega (arith, chars-append xs ys)

length-without_breaks : (s : Text) → length (without_breaks s) ≤ length s
unfolding without_breaks
length-without_breaks [] = omega arith
length-without_breaks (c ∷ s) = ground (arith, length-without_breaks s)

chars-pieces :
    (log : LogData) (cs : List Text) → chars (map (with_message log) cs) ≡ length (concat cs)
unfolding chars
chars-pieces log [] = refl
chars-pieces log (c ∷ cs) = omega (arith, chars-pieces log cs, length-append c (concat cs))

-- The message of an entry is a piece.
abbrev pub IsLine : ℕ → LogData → Type 0
IsLine n log = IsPiece n log.message

lines-All :
    (n : ℕ) (log : LogData) (cs : List Text)
    → All (IsPiece n) cs
    → All (IsLine n) (map (with_message log) cs)
lines-All n log [] a = tt
lines-All n log (c ∷ cs) a = (a.0, lines-All n log cs a.1)

CutOf-IsLine : (n : ℕ) (queue out : List LogData) → CutOf n queue out → All (IsLine n) out
CutOf-IsLine n [] out e = subst (All (IsLine n)) (sym e) tt
CutOf-IsLine n (log ∷ queue) out (cs, rest, e, pieces, cut) = subst (All (IsLine n)) (sym e) (
    All-append (IsLine n) (map (with_message log) cs) rest (lines-All n log cs pieces.1)
      (CutOf-IsLine n queue rest cut))

CutOf-chars : (n : ℕ) (queue out : List LogData) → CutOf n queue out → chars out ≤ chars queue
unfolding chars
CutOf-chars n [] out e = rw e (omega arith)
CutOf-chars n (log ∷ queue) out (cs, rest, e, pieces, cut) =
    let size = ap chars e ∙ chars-append (map (with_message log) cs) rest in
    let joined = chars-pieces log cs ∙ ap length pieces.0 in
    omega (arith, size, joined, CutOf-chars n queue rest cut, length-without_breaks log.message)

pub chars-front : (xs ys : List LogData) → chars xs ≤ chars (xs ++ ys)
chars-front xs ys = omega (arith, chars-append xs ys)

-- What the pieces of an entry have from it, all that a batch is cut into has.
pub CutOf-All {κ} :
    (P : LogData → Type κ) (n : ℕ)
    → ((log : LogData) (cs : List Text)
        → P log
        → PiecesOf n log.message cs
        → All P (map (with_message log) cs))
    → (queue out : List LogData) → CutOf n queue out
    → All P queue
    → All P out
CutOf-All P n pieces [] out e a = subst (All P) (sym e) tt
CutOf-All P n pieces (log ∷ queue) out (cs, rest, e, of, cut) a = subst (All P) (sym e) (
    All-append P (map (with_message log) cs) rest (pieces log cs a.0 of)
      (CutOf-All P n pieces queue rest cut a.1))

-- Entries of one line each, within the limit, and together of no more than `most` characters.
pub record Bounded (n most : ℕ) (out : List LogData) : Type 0 where
  pub lines : All (IsLine n) out
  pub total : chars out ≤ most

pub front-Bounded :
    (n most most' : ℕ) (xs ys : List LogData)
    → most ≤ most'
    → Bounded n most (xs ++ ys)
    → Bounded n most' xs
front-Bounded n most most' xs ys more b = record {
  lines = All-front (IsLine n) xs ys b.lines;
  total = omega (arith, chars-front xs ys, b.total, more);
}

pub split_str_into_chunks-Bounded :
    {chunks : ℕ → Text → Option (List Text)}
    → IsChunks chunks
    → (n : ℕ) (queue out : List LogData) → 0 < n
    → split_str_into_chunks chunks queue n ≡ some out
    → Bounded n (chars queue) out
split_str_into_chunks-Bounded laws zero queue out pos e = absurd (omega (arith, pos))
split_str_into_chunks-Bounded laws (suc n) queue out pos e =
    let (out', e', cut) = split_str_into_chunks-CutOf laws n queue in
    let same : out' ≡ out = cc in
    subst (Bounded (suc n) (chars queue)) same (record {
      lines = CutOf-IsLine (suc n) queue out' cut;
      total = CutOf-chars (suc n) queue out' cut;
    })
