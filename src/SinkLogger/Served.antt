-- ===== src/SinkLogger/Served.antt =====
-- Sinks that have had several entries.
use paperlog.Base.{◌≡◌, refl, ap, ap₂, List, [], ◌∷◌, ◌++◌, map, append-nil, append_assoc}
use paperlog.LogData.{LogData}
use paperlog.LoggerThreadCtx.{Sink}
use paperlog.SinkLogger.{called}

-- A sink that has had more entries.
abbrev pub served : List LogData → Sink → Sink
served logs sink = record sink { received = sink.received ++ logs }

pub served-nil : (sinks : List Sink) → map (served []) sinks ≡ sinks
served-nil [] = refl
served-nil (sink ∷ sinks) =
    ap₂ (◌∷◌) (ap (λ r. record sink { received = r }) (append-nil sink.received)) (served-nil sinks)

pub served-called :
    (log : LogData) (logs : List LogData) (sinks : List Sink)
    → map (served logs) (map (called log) sinks) ≡ map (served (log ∷ logs)) sinks
served-called log logs [] = refl
served-called log logs (sink ∷ sinks) =
    ap₂ (◌∷◌) (ap (λ r. record sink { received = r }) (append_assoc sink.received (log ∷ []) logs))
      (served-called log logs sinks)
