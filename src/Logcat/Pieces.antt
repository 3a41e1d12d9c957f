-- ===== src/Logcat/Pieces.antt =====
-- The pieces of an entry and Android's log: what was free of NULs stays so.
use paperlog.Base.{
  ◌+◌, ◌≤◌, ◌≡◌, refl, sym, ap, ◌∙◌, ℕ, Text, codes, count, count-append, unwrap_or, show_u32, List,
  [], ◌∷◌, ◌++◌, map, concat, concat-append, append-nil, append_assoc, All, arith,
}
use paperlog.LogData.{LogData}
use paperlog.Chunks.{with_message}
use paperlog.Chunks.Lines.{without_breaks, PiecesOf}
use paperlog.Logcat.{utf8, message_str, tag_bytes}
use paperlog.Logcat.Laws.{NoNul}

utf8-append : (a b : Text) → utf8 (a ++ b) ≡ utf8 a ++ utf8 b
unfolding utf8
utf8-append [] b = refl
utf8-append (c ∷ a) b = rw (utf8-append a b) (sym (append_assoc _ (utf8 a) (utf8 b)))

count-utf8-append :
    (n : ℕ) (a b : Text) → count n (utf8 (a ++ b)) ≡ count n (utf8 a) + count n (utf8 b)
count-utf8-append n a b = ap (count n) (utf8-append a b) ∙ count-append n (utf8 a) (utf8 b)

count-utf8-without_breaks :
    (n : ℕ) (s : Text) → count n (utf8 (without_breaks s)) ≤ count n (utf8 s)
unfolding without_breaks
count-utf8-without_breaks n [] = omega arith
count-utf8-without_breaks n (c ∷ s) = ground (
  arith,
  count-utf8-without_breaks n s,
  count-utf8-append n (c ∷ []) s,
  count-utf8-append n (c ∷ []) (without_breaks s),
)

-- What stands in front of the message.
abbrev frame : LogData → List (List ℕ)
frame log =
    codes "["
    ∷ utf8 log.file
    ∷ codes ":"
    ∷ show_u32 log.line
    ∷ codes ":"
    ∷ show_u32 log.column
    ∷ codes " @ "
    ∷ utf8 (unwrap_or log.function_name [])
    ∷ codes "] "
    ∷ []

count-message_str :
    (n : ℕ) (log : LogData)
    → count n (message_str log) ≡ count n (concat (frame log)) + count n (utf8 log.message)
unfolding message_str
count-message_str n log =
    ap (count n) (
      concat-append (frame log) (utf8 log.message ∷ [])
      ∙ ap (◌++◌ (concat (frame log))) (append-nil (utf8 log.message)))
    ∙ count-append n (concat (frame log)) (utf8 log.message)

cut-NoNul :
    (log : LogData) (piece : Text)
    → NoNul log
    → count 0 (utf8 piece) ≡ 0
    → NoNul (with_message log piece)
unfolding tag_bytes
cut-NoNul log piece clean c = record {
  tag = clean.tag;
  message =
      omega (
        arith,
        count-message_str 0 log,
        count-message_str 0 (with_message log piece),
        clean.message,
      );
}

pieces-NoNul :
    (log : LogData) (cs : List Text)
    → NoNul log
    → count 0 (utf8 (concat cs)) ≡ 0
    → All NoNul (map (with_message log) cs)
pieces-NoNul log [] clean e = tt
pieces-NoNul log (c ∷ cs) clean e =
    let sum = count-utf8-append 0 c (concat cs) in
    (cut-NoNul log c clean (omega (arith, sum)), pieces-NoNul log cs clean (omega (arith, sum)))

-- The pieces of an entry without a NUL have none.
pub NoNul-pieces :
    (n : ℕ) (log : LogData) (cs : List Text)
    → NoNul log
    → PiecesOf n log.message cs
    → All NoNul (map (with_message log) cs)
NoNul-pieces n log cs clean pieces = pieces-NoNul log cs clean (
    omega (
      arith,
      ap (λ t. count 0 (utf8 t)) pieces.0,
      count-utf8-without_breaks 0 log.message,
      count-message_str 0 log,
      clean.message,
    ))

-- The name of the file stands in the message.
pub file-NoNul : (log : LogData) → NoNul log → count 0 (utf8 log.file) ≡ 0
file-NoNul log clean =
    let rest = concat (
      codes ":"
      ∷ show_u32 log.line
      ∷ codes ":"
      ∷ show_u32 log.column
      ∷ codes " @ "
      ∷ utf8 (unwrap_or log.function_name [])
      ∷ codes "] "
      ∷ []) in
    omega (
      arith,
      count-message_str 0 log,
      clean.message,
      count-append 0 (codes "[") (utf8 log.file ++ rest),
      count-append 0 (utf8 log.file) rest,
    )
