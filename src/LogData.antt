-- ===== src/LogData.antt =====
-- src/logger/log_data.rs: one log entry and its three printed forms. chrono's timestamps are
-- instants, which only chrono can read: its `format` is the parameter `format_time`.
pub mod Lines
use paperlog.Base.{
  ℕ, Text, codes, Option, none, some, [], ◌∷◌, ◌++◌, concat, unwrap_or, show_u32, newline,
}
use paperlog.LogLevel.{LogLevel, info, short, display}
use paperlog.Io.{OutFile, IoResult, write_text}

-- `chrono::DateTime<Local>`, opaque to the logger.
abbrev pub Instant : Type 0
Instant = ℕ

pub record LogData : Type 0 where
  pub level : LogLevel
  pub tag : Option Text
  pub message : Text
  pub timestamp : Instant
  pub file : Text
  pub line : ℕ  -- u32
  pub column : ℕ  -- u32
  pub function_name : Option Text

abbrev pub default_tag : Text
default_tag = codes "GLOBAL"

-- `LogData::new`, with what `Local::now()` returns first.
unfoldable pub new : Instant → LogLevel → Option Text → Text → Text → ℕ → ℕ → Option Text → LogData
new now level tag message file line column function_name = record {
  level = level;
  tag = tag;
  message = message;
  timestamp = now;
  file = file;
  line = line;
  column = column;
  function_name = function_name;
}

-- `LogData::default`
unfoldable pub default : Instant → LogData
default now = record {
  level = info;
  tag = none;
  message = [];
  timestamp = now;
  file = [];
  line = 0;
  column = 0;
  function_name = none;
}

module _ (format_time : Instant → Text) where
  unfoldable pub format : LogData → Text
  format d = concat (
      display d.level
      ∷ codes " "
      ∷ format_time d.timestamp
      ∷ codes " ["
      ∷ unwrap_or d.tag default_tag
      ∷ codes "] ["
      ∷ d.file
      ∷ codes ":"
      ∷ show_u32 d.line
      ∷ codes ":"
      ∷ show_u32 d.column
      ∷ codes " @ "
      ∷ unwrap_or d.function_name (codes "default")
      ∷ codes "] "
      ∷ d.message
      ∷ [])

  -- What `write_to_io` prints.
  unfoldable pub full_line : LogData → Text
  full_line d = concat (
      (short d.level ∷ [])
      ∷ codes " "
      ∷ format_time d.timestamp
      ∷ codes " ["
      ∷ unwrap_or d.tag default_tag
      ∷ codes "] ["
      ∷ d.file
      ∷ codes ":"
      ∷ show_u32 d.line
      ∷ codes ":"
      ∷ show_u32 d.column
      ∷ codes " @ "
      ∷ unwrap_or d.function_name (codes "default")
      ∷ codes "] "
      ∷ d.message
      ∷ (newline ∷ [])
      ∷ [])

  -- What `write_compact_to_io` prints: no tag.
  unfoldable pub compact_line : LogData → Text
  compact_line d = concat (
      (short d.level ∷ [])
      ∷ codes " "
      ∷ format_time d.timestamp
      ∷ codes " ["
      ∷ d.file
      ∷ codes ":"
      ∷ show_u32 d.line
      ∷ codes ":"
      ∷ show_u32 d.column
      ∷ codes " @ "
      ∷ unwrap_or d.function_name (codes "default")
      ∷ codes "] "
      ∷ d.message
      ∷ (newline ∷ [])
      ∷ [])

  unfoldable pub write_to_io : LogData → OutFile → OutFile × IoResult
  write_to_io d writer = write_text writer (full_line d)

  unfoldable pub write_compact_to_io : LogData → OutFile → OutFile × IoResult
  write_compact_to_io d writer = write_text writer (compact_line d)
