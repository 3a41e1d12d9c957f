-- ===== src/Tests/Data.antt =====
-- A cutter that does what itertools promises, and a logger with one context and one sink.
use paperlog.Base.{
  ℕ, zero, suc, ◌≤◌, ◌<◌, ◌≡◌, ◌≢◌, refl, Text, codes, List, [], ◌∷◌, concat, length, take, drop,
  length-take, length-drop, take-append-drop, Option, none, some, arith, false, unwrap_or,
}
use paperlog.Io.{new_file}
use paperlog.LogLevel.{info, warn}
use paperlog.LogData.{LogData}
use paperlog.Chunks.{Filled, IsChunks}
use paperlog.LoggerThreadCtx.{LoggerThreadCtx, default_config}
use paperlog.LogThread.{Crates}
use paperlog.LogThread.Health.{Healthy}
use paperlog.Protocol.{System, Event, run, start}

abbrev pub chunk_by : ℕ → ℕ → Text → List Text
chunk_by zero n s = []
chunk_by (suc fuel) n [] = []
chunk_by (suc fuel) n (c ∷ s) = take n (c ∷ s) ∷ chunk_by fuel n (drop n (c ∷ s))

abbrev pub chunks : ℕ → Text → Option (List Text)
chunks zero s = none
chunks (suc n) s = some (chunk_by (length s) (suc n) s)

Filled-cons :
    (n : ℕ) (x : Text) (xs : List Text)
    → 0 < length x
    → length x ≤ n
    → (xs ≢ [] → length x ≡ n)
    → Filled n xs
    → Filled n (x ∷ xs)
Filled-cons n x [] h k full f = (h, k)
Filled-cons n x (y ∷ ys) h k full f = (full (λ e. cc), f)

chunk_by-nil : (fuel n : ℕ) (s : Text) → length s ≡ 0 → chunk_by fuel n s ≡ []
chunk_by-nil zero n s h = refl
chunk_by-nil (suc fuel) n [] h = refl
chunk_by-nil (suc fuel) n (c ∷ s) h = absurd (omega (arith, h))

chunk_by_lem :
    (fuel n : ℕ) (s : Text)
    → length s ≤ fuel
    → (concat (chunk_by fuel (suc n) s) ≡ s) × Filled (suc n) (chunk_by fuel (suc n) s)
chunk_by_lem zero n [] h = (refl, tt)
chunk_by_lem zero n (c ∷ s) h = absurd (omega (arith, h))
chunk_by_lem (suc fuel) n [] h = (refl, tt)
chunk_by_lem (suc fuel) n (c ∷ s) h =
    let ih = chunk_by_lem fuel n (drop n s) (omega (arith, h, length-drop n s)) in
    let nil = chunk_by-nil fuel (suc n) (drop n s) in
    (
      rw (ih.0, take-append-drop n s),
      Filled-cons (suc n) (c ∷ take n s) (chunk_by fuel (suc n) (drop n s)) (omega arith)
          (omega (arith, length-take n s))
          (λ more. ground (arith, length-take n s, length-drop n s, nil, more)) ih.1,
    )

pub chunks-IsChunks : IsChunks chunks
chunks-IsChunks = record {
  at_zero = λ s. refl;
  cuts = λ n s.
      let (joined, filled) = chunk_by_lem (length s) n s (omega arith) in
      (chunk_by (length s) (suc n) s, refl, joined, filled);
}

abbrev pub crates : Crates
crates = record {
  format_time = λ t. codes "now";
  chunks = chunks;
  now = 7;
  here = record { file = codes "ctx.rs"; line = 167; column = 17 };
}

abbrev pub plain : LogData
plain = record {
  level = info;
  tag = none;
  message = codes "a\nb";
  timestamp = 1;
  file = codes "m.rs";
  line = 10;
  column = 5;
  function_name = none;
}

abbrev pub tagged_a : LogData
tagged_a = record plain { level = warn; tag = some (codes "A"); message = codes "c" }

abbrev pub ctx : LoggerThreadCtx
ctx = record {
  config = default_config;
  log_queue = [];
  log_signal = false;
  flush_signal = false;
  inited = false;
  global_file = new_file [];
  context_map = record { key = codes "A"; value = new_file [] } ∷ [];
  sinks = record { received = []; reply = λ before log. none } ∷ [];
}

pub ctx-Healthy : Healthy ctx
ctx-Healthy = record {
  files = record { global = refl; contexts = (refl, tt) };
  sinks = (λ received log. refl, tt);
  limit = omega arith;
}

-- The state after a schedule.
abbrev pub after : List Event → System
after es = unwrap_or (run crates es (start ctx)) (start ctx)
