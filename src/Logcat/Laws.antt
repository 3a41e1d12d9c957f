-- ===== src/Logcat/Laws.antt =====
-- When the slices of the buffer fit, what is sent then, and what a skipped entry leaves behind.
use paperlog.Base.{
  none, ℕ, ◌+◌, ◌≤◌, ◌<◌, ◌≡◌, ◌≢◌, ◌↔◌, refl, sym, ap, subst, ◌∙◌, leb, Bool, true, List, [], ◌∷◌,
  ◌++◌, length, length-append, drop, drop-length-append, show_u32, unwrap_or, arith, append_assoc,
  append-nil, count,
}
use paperlog.LogData.{LogData}
use paperlog.Logcat.{
  Priority, to_priority, utf8, sent, panicked, c_string, message_str, tag_bytes, fill, tag_len,
  file_len, slices_fit, send, do_log_api_30, do_log,
}

length-message_str :
    (log : LogData)
    → length (message_str log)
      ≡ 8
        + length (utf8 log.file)
        + length (show_u32 log.line)
        + length (show_u32 log.column)
        + length (utf8 (unwrap_or log.function_name []))
        + length (utf8 log.message)
unfolding message_str
length-message_str log = simp length-append (omega arith)

-- The bytes of the frame around a message, less the file's name.
abbrev pub spare : LogData → ℕ
spare log =
    7
    + length (show_u32 log.line)
    + length (show_u32 log.column)
    + length (utf8 (unwrap_or log.function_name []))

-- What the tag may have: all of the message's own bytes and those of the frame around them.
abbrev pub room : LogData → ℕ
room log = spare log + length (utf8 log.message)

pub length-fill :
    (buffer : List ℕ) (log : LogData)
    → length (fill buffer log)
      ≡ length buffer
        + length (tag_bytes log)
        + length (utf8 log.file)
        + length (message_str log)
        + 3
unfolding fill
length-fill buffer log = simp length-append (omega arith)

pub slices_fit-room :
    (buffer : List ℕ) (log : LogData)
    → slices_fit (fill buffer log) log ≡ leb (length (tag_bytes log)) (room log)
unfolding slices_fit
slices_fit-room buffer log = ground (arith, length-fill buffer log, length-message_str log)

-- Where the tag has room, no call panics, whatever is left in the buffer.
pub do_log-fits :
    (log : LogData) (buffer : List ℕ)
    → length (tag_bytes log) ≤ room log
    → (do_log log buffer).0 ≢ panicked
unfolding do_log
do_log-fits log buffer h = ground (arith, slices_fit-room buffer log)

pub do_log_api_30-fits :
    (loggable : Priority → List ℕ → Bool) (log : LogData) (buffer : List ℕ)
    → length (tag_bytes log) ≤ room log
    → (do_log_api_30 loggable log buffer).0 ≢ panicked
unfolding do_log_api_30
do_log_api_30-fits loggable log buffer h = ground (arith, slices_fit-room buffer log)

pub c_string-append : (s r : List ℕ) → count 0 s ≡ 0 → c_string (s ++ 0 ∷ r) ≡ s
unfolding c_string
c_string-append [] r h = refl
c_string-append (b ∷ s) r h = ground (arith, c_string-append s r)

-- With an empty buffer the call panics exactly when the tag has more bytes than the printed line
-- and column, the name of the function, the message and seven more have together.
pub do_log-panics_iff :
    (log : LogData) → ((do_log log []).0 ≡ panicked) ↔ (room log < length (tag_bytes log))
unfolding do_log
do_log-panics_iff log = ground (arith, slices_fit-room [] log)

-- The texts of an entry that go to the log have no NUL in them.
pub record NoNul (log : LogData) : Type 0 where
  pub tag : count 0 (tag_bytes log) ≡ 0
  pub message : count 0 (message_str log) ≡ 0

drop-two :
    (s t m : List ℕ) → drop (length s + 1 + length t + 1) ((s ++ 0 ∷ []) ++ (t ++ 0 ∷ []) ++ m) ≡ m
drop-two s t m =
    let size : length ((s ++ 0 ∷ []) ++ (t ++ 0 ∷ [])) ≡ length s + 1 + length t + 1 =
      simp length-append (omega arith) in
    subst (λ n. drop n ((s ++ 0 ∷ []) ++ (t ++ 0 ∷ []) ++ m) ≡ m) size
      (drop-length-append ((s ++ 0 ∷ []) ++ (t ++ 0 ∷ [])) m)

drop-message : (log : LogData) → drop (file_len log) (fill [] log) ≡ message_str log ++ 0 ∷ []
unfolding fill file_len tag_len
drop-message log = drop-two (tag_bytes log) (utf8 log.file) (message_str log ++ 0 ∷ [])

-- The first C string of a list that starts with s and a NUL, whatever follows.
first_string : (s a b c : List ℕ) → count 0 s ≡ 0 → c_string ((s ++ 0 ∷ []) ++ a ++ b ++ c) ≡ s
first_string s a b c h =
    let shape : (s ++ 0 ∷ []) ++ a ++ b ++ c ≡ s ++ 0 ∷ (a ++ b ++ c) = simp append_assoc refl in
    ap c_string shape ∙ c_string-append s (a ++ b ++ c) h

fill-tag :
    (rest : List ℕ) (log : LogData) → NoNul log → c_string (fill [] log ++ rest) ≡ tag_bytes log
unfolding fill
fill-tag rest log n =
    first_string (tag_bytes log) (utf8 log.file ++ 0 ∷ []) (message_str log ++ 0 ∷ []) rest n.tag

-- The C strings of tag and message in a buffer that was empty.
pub fill-tag_alone : (log : LogData) → NoNul log → c_string (fill [] log) ≡ tag_bytes log
fill-tag_alone log n = ap c_string (sym (append-nil (fill [] log))) ∙ fill-tag [] log n

pub fill-message :
    (log : LogData) → NoNul log → c_string (drop (file_len log) (fill [] log)) ≡ message_str log
fill-message log n = ap c_string (drop-message log) ∙ c_string-append (message_str log) [] n.message

-- Where the tag has room and no text of the entry has a NUL, tag and message are sent whole, with
-- the priority of the level, and the buffer is empty again.
pub do_log-sends :
    (log : LogData)
    → NoNul log
    → length (tag_bytes log) ≤ room log
    → do_log log [] ≡ (
      sent (record {
        priority = to_priority log.level;
        tag = tag_bytes log;
        message = message_str log;
        origin = none;
      }),
      [],
    )
unfolding do_log send
do_log-sends log n h =
    let fits : slices_fit (fill [] log) log ≡ true = ground (arith, slices_fit-room [] log) in
    rw fits (rw (fill-tag_alone log n) (rw (fill-message log n)))
