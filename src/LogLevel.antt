-- ===== src/LogLevel.antt =====
-- src/log_level.rs: the levels and their two printed forms.
use paperlog.Base.{ℕ, Text, codes}

pub data LogLevel : Type 0 where
  info warn error debug crit off : LogLevel

-- A `char`, by its code point.
unfoldable pub short : LogLevel → ℕ
short info = b'I'
short warn = b'W'
short error = b'E'
short debug = b'D'
short crit = b'C'
short off = b'O'

-- `impl Display for LogLevel`
unfoldable pub display : LogLevel → Text
display info = codes "INFO"
display warn = codes "WARN"
display error = codes "ERROR"
display debug = codes "DEBUG"
display crit = codes "CRIT"
display off = codes "OFF"
