-- ===== src/TracingLogger/Laws.antt =====
-- The event that an entry becomes.
use paperlog.Base.{
  ◌≡◌, refl, sym, Bool, true, false, if◌then◌else◌, Text, List, [], ◌∷◌, ◌++◌, append-nil,
}
use paperlog.LogLevel.{LogLevel, info, warn, error, debug, crit, off}
use paperlog.LogData.{LogData, Instant, format}
use paperlog.TracingLogger.{to_level, Emitted, emit, by_level, do_log}

is_off : LogLevel → Bool
is_off off = true
is_off _ = false

-- The event of an entry: none for the level `off`, and else one of the level's counterpart.
unfoldable pub told : (Instant → Text) → LogData → List Emitted
unfolding is_off
told format_time log =
    if is_off log.level
    then []
    else record { level = to_level log.level; message = format format_time log } ∷ []

by_level-told :
    (level : LogLevel) (message : Text) (events : List Emitted)
    → by_level level message events
      ≡ events
        ++ (if is_off level then [] else record { level = to_level level; message = message } ∷ [])
unfolding by_level emit to_level is_off
by_level-told info message events = refl
by_level-told warn message events = refl
by_level-told error message events = refl
by_level-told debug message events = refl
by_level-told crit message events = refl
by_level-told off message events = sym (append-nil events)

pub do_log-told :
    (format_time : Instant → Text) (log : LogData) (events : List Emitted)
    → do_log format_time log events ≡ events ++ told format_time log
unfolding do_log told
do_log-told format_time log events = by_level-told log.level (format format_time log) events
