-- ===== src/Logcat/Sends.antt =====
-- What both builds of src/logger/logcat_logger.rs send of an entry, from an empty buffer.
use paperlog.Base.{
  ◌+◌, ◌≤◌, ◌≡◌, refl, ap, ◌∙◌, if◌then◌else◌, ℕ, Bool, true, List, [], ◌∷◌, ◌++◌, length,
  append_assoc, subst, drop, length-append, drop-length-append, some, none, arith,
}
use paperlog.LogData.{LogData}
use paperlog.Logcat.{
  Priority, Ended, sent, utf8, tag_bytes, message_str, to_priority, do_log_api_30, fill, send,
  slices_fit, c_string, tag_len,
}
use paperlog.Logcat.Laws.{
  NoNul, room, spare, slices_fit-room, c_string-append, fill-tag_alone, fill-message,
}
use paperlog.Logcat.Pieces.{file-NoNul}

-- The call with the whole entry.
abbrev pub whole : Bool → LogData → Ended
whole api_30 log = sent (record {
  priority = to_priority log.level;
  tag = tag_bytes log;
  message = message_str log;
  origin = if api_30 then some (utf8 log.file, log.line) else none;
})

drop-one : (t r : List ℕ) → drop (length t + 1) ((t ++ 0 ∷ []) ++ r) ≡ r
drop-one t r =
    subst (λ n. drop n ((t ++ 0 ∷ []) ++ r) ≡ r) (length-append t (0 ∷ []))
      (drop-length-append (t ++ 0 ∷ []) r)

fill-file :
    (log : LogData) → NoNul log → c_string (drop (tag_len log) (fill [] log)) ≡ utf8 log.file
unfolding fill tag_len
fill-file log n =
    let tag = tag_bytes log ++ 0 ∷ [] in
    let file = utf8 log.file ++ 0 ∷ [] in
    let message = message_str log ++ 0 ∷ [] in
    ap (λ l. c_string (drop (length (tag_bytes log) + 1) l)) (append_assoc tag file message)
    ∙ ap c_string (drop-one (tag_bytes log) (file ++ message))
    ∙ ap c_string (append_assoc (utf8 log.file) (0 ∷ []) message)
    ∙ c_string-append (utf8 log.file) message (file-NoNul log n)

pub do_log_api_30-sends :
    (loggable : Priority → List ℕ → Bool) (log : LogData)
    → loggable (to_priority log.level) (tag_bytes log) ≡ true
    → NoNul log
    → length (tag_bytes log) ≤ room log
    → do_log_api_30 loggable log [] ≡ (whole true log, [])
unfolding do_log_api_30 send
do_log_api_30-sends loggable log on n h =
    let fits : slices_fit (fill [] log) log ≡ true = ground (arith, slices_fit-room [] log) in
    rw (fits, fill-tag_alone log n, on, fill-message log n, fill-file log n) refl

-- An entry without a NUL, whose tag has no more bytes than the frame around its message.
pub record Sendable (log : LogData) : Type 0 where
  pub no_nul : NoNul log
  pub fits : length (tag_bytes log) ≤ spare log
