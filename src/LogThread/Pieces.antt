-- ===== src/LogThread/Pieces.antt =====
-- The entries handed out, as a part of what an earlier part of the entries taken was cut into.
use paperlog.Base.{◌≡◌, sym, ap, ◌∙◌, ℕ, List, [], ◌++◌, some, append-nil}
use paperlog.LogData.{LogData}
use paperlog.Chunks.{split_str_into_chunks}
use paperlog.LogThread.{
  Crates, Pc, top, taken, writing, handing, checking, flushing, deciding, waiting, failed,
  reporting, stopped, panicked,
}
use paperlog.LogThread.Handed.{Handed}
use paperlog.LogThread.Serves.{IsAlive}

module _ (crates : Crates) where
  open crates use {chunks}

  -- `got` begins what the first entries taken were cut into.
  pub record Begins (n : ℕ) (took got : List LogData) : Type 0 where
    pub done : List LogData
    pub left : List LogData
    pub taken_in_order : took ≡ done ++ left
    pub rest : List LogData
    pub cut : split_str_into_chunks chunks done n ≡ some (got ++ rest)

  pub whole-Begins :
      (n : ℕ) (took got : List LogData)
      → split_str_into_chunks chunks took n ≡ some got
      → Begins n took got
  whole-Begins n took got cut = record {
    done = took;
    left = [];
    taken_in_order = sym (append-nil took);
    rest = [];
    cut = cut ∙ ap some (sym (append-nil got));
  }

  pub Handed-Begins :
      (n : ℕ) (pc : Pc) (took got : List LogData)
      → IsAlive pc
      → Handed crates n pc took got
      → Begins n took got
  Handed-Begins n (taken b) took got a (p, e, cut) = record {
    done = p;
    left = b;
    taken_in_order = e;
    rest = [];
    cut = cut ∙ ap some (sym (append-nil got));
  }
  Handed-Begins n (writing logs) took got a (p, b, e, later, cut) = record {
    done = p;
    left = b;
    taken_in_order = e;
    rest = [];
    cut = cut ∙ ap some (sym (append-nil got));
  }
  Handed-Begins n (handing rest) took got a cut = record {
    done = took;
    left = [];
    taken_in_order = sym (append-nil took);
    rest = rest;
    cut = cut;
  }
  Handed-Begins n (failed e) took got a h = absurd a
  Handed-Begins n (reporting e) took got a h = absurd a
  Handed-Begins n (stopped e) took got a h = absurd a
  Handed-Begins n panicked took got a h = absurd a
  Handed-Begins n top took got a h = whole-Begins n took got h
  Handed-Begins n checking took got a h = whole-Begins n took got h
  Handed-Begins n flushing took got a h = whole-Begins n took got h
  Handed-Begins n deciding took got a h = whole-Begins n took got h
  Handed-Begins n waiting took got a h = whole-Begins n took got h
