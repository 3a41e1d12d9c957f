-- ===== src/Semaphore/Atomic.antt =====
-- The semaphore as the rest of the logger sees it: a flag, with `signal` and `wait` as single steps.
use paperlog.Base.{ℕ, suc, ◌+◌, ◌≡◌, refl, sym, subst, Bool, true, false, some}
use paperlog.LoggerThreadCtx.{signal, wait}
use paperlog.Semaphore
use paperlog.Semaphore.{
  Place, Semaphore, new, test_flag, give_up, leave, Step, enters, resumes, times_out,
  times_out_late, returns, returns_timed, signals_in, Reach, next,
}

-- A step of the flag, of the number of waits that passed, and of the signals given.
pub data Atomic (flag : Bool) (passes : ℕ) : Bool → ℕ → ℕ → Type 0 where
  nothing : Atomic flag passes flag passes 0
  sets : Atomic flag passes (signal flag) passes 1
  takes : {flag' : Bool} → wait flag ≡ some flag' → Atomic flag passes flag' (suc passes) 0

-- What such steps reach from a new flag, with the signals on the way.
pub data Flag : Bool → ℕ → ℕ → Type 0 where
  starts : Flag false 0 0
  goes_on :
      {flag flag' : Bool} {passes passes' before more : ℕ}
      → Flag flag passes before
      → Atomic flag passes flag' passes' more
      → Flag flag' passes' (more + before)

test_flag-Atomic :
    (flag : Bool) (threads : ℕ → Place) (passes i : ℕ)
    → Atomic flag passes
        (test_flag (record { flag = flag; threads = threads; passes = passes }) i).flag
        (test_flag (record { flag = flag; threads = threads; passes = passes }) i).passes
        0
unfolding test_flag
test_flag-Atomic true threads passes i = takes refl
test_flag-Atomic false threads passes i = nothing

Step-Atomic :
    {s t : Semaphore} (st : Step s t) → Atomic s.flag s.passes t.flag t.passes (signals_in st)
unfolding Semaphore.signal give_up leave
Step-Atomic Semaphore.signals = sets
Step-Atomic {s} (enters i h) = test_flag-Atomic s.flag s.threads s.passes i
Step-Atomic {s} (resumes i h) = test_flag-Atomic s.flag s.threads s.passes i
Step-Atomic (times_out i h) = nothing
Step-Atomic (times_out_late i h) = nothing
Step-Atomic (returns i h) = nothing
Step-Atomic (returns_timed i h) = nothing

-- The semaphore refines a plain flag: whatever its threads do, with or without a limit of time, the
-- flag and the waits that passed go as if `signal` and `wait` were single steps on the flag, the
-- same signals included.
pub Reach-Flag : {t : Semaphore} {n : ℕ} → Reach new n t → Flag t.flag t.passes n
unfolding new
Reach-Flag Semaphore.here = starts
Reach-Flag (next r st e) = subst (Flag _ _) (sym e) (goes_on (Reach-Flag r) (Step-Atomic st))
