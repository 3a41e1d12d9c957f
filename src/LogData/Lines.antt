-- ===== src/LogData/Lines.antt =====
-- The printed forms of a log entry against one another, and the lines they take.
use paperlog.Base.{
  ℕ, ◌+◌, ◌≡◌, Text, codes, [], ◌∷◌, ◌++◌, unwrap_or, drop, length, count, count-append,
  count-show_u32, newline, arith, ◌==◌, false, append_assoc, append-nil, drop-length-append,
}
use paperlog.LogLevel.{LogLevel, short, display}
use paperlog.LogData.{LogData, Instant, format, full_line, compact_line, default_tag}

-- The letter of a level tells it from the others, and it is the first letter of its name.
short_faithful :
    (a b : LogLevel) → (display a ≡ short a ∷ drop 1 (display a)) × (short a ≡ short b → a ≡ b)
unfolding short display
short_faithful a b = ground arith

short-ne-newline : (l : LogLevel) → (short l == newline) ≡ false
unfolding short
short-ne-newline l = ground arith

ruleset counting = (count-append, count-show_u32, short-ne-newline)

module _ (format_time : Instant → Text) where
  -- A line of the global file is the formatted entry with the level cut to its letter.
  full_line-format :
      (d : LogData)
      → full_line format_time d
        ≡ short d.level ∷ drop (length (display d.level)) (format format_time d) ++ newline ∷ []
  unfolding full_line format
  full_line-format d = rw (drop-length-append (display d.level)) (simp (append_assoc, append-nil))

  -- Line breaks of the texts that both kinds of line print.
  abbrev pub breaks : LogData → ℕ
  breaks d =
      count newline (format_time d.timestamp)
      + count newline d.file
      + count newline (unwrap_or d.function_name (codes "default"))
      + count newline d.message

  count-compact_line : (d : LogData) → count newline (compact_line format_time d) ≡ breaks d + 1
  unfolding compact_line
  count-compact_line d = simp counting (omega arith)

  count-full_line :
      (d : LogData)
      → count newline (full_line format_time d)
        ≡ breaks d + count newline (unwrap_or d.tag default_tag) + 1
  unfolding full_line
  count-full_line d = simp counting (omega arith)

  -- A line ends in the one line break that it adds: the global file's line has those of the time,
  -- the tag, the file's and the function's name and the message besides, the context file's the
  -- same without the tag.
  count-lines :
      (d : LogData)
      → (count newline (full_line format_time d)
          ≡ breaks d + count newline (unwrap_or d.tag default_tag) + 1)
        × (count newline (compact_line format_time d) ≡ breaks d + 1)
  count-lines d = (count-full_line d, count-compact_line d)
