-- ===== src/Semaphore/Laws.antt =====
-- Waits against signals, and threads that are parked.
use paperlog.Base.{ℕ, ◌+◌, ◌≤◌, ◌≡◌, ◌≢◌, Bool, true, false, arith}
use paperlog.Semaphore.{
  parked, Semaphore, new, signal, test_flag, give_up, leave, Step, signals, enters, resumes,
  times_out, times_out_late, returns, returns_timed, signals_in, Reach, here, next,
}

abbrev pub bit : Bool → ℕ
bit true = 1
bit false = 0

-- Passes made, and the one that a set flag still allows.
abbrev pub credit : Semaphore → ℕ
credit s = s.passes + bit s.flag

Step-credit : {s t : Semaphore} (st : Step s t) → credit t ≤ credit s + signals_in st
unfolding signal test_flag give_up leave
Step-credit signals = ground arith
Step-credit (enters i h) = ground arith
Step-credit (resumes i h) = ground arith
Step-credit (times_out i h) = ground arith
Step-credit (times_out_late i h) = ground arith
Step-credit (returns i h) = ground arith
Step-credit (returns_timed i h) = ground arith

Reach-credit : {s t : Semaphore} {n : ℕ} → Reach s n t → credit t ≤ credit s + n
Reach-credit here = omega arith
Reach-credit (next r st e) = omega (arith, Step-credit st, Reach-credit r)

-- However many threads wait, with or without a limit of time, and however they interleave, the
-- waits that pass are at most the signals given.
passes-le-signals : {t : Semaphore} {n : ℕ} → Reach new n t → t.passes ≤ n
unfolding new
passes-le-signals r = omega (arith, Reach-credit r)

abbrev NoSleeper : Semaphore → Type 0
NoSleeper s = s.flag ≡ true → (j : ℕ) → s.threads j ≢ parked

Step-NoSleeper : {s t : Semaphore} → Step s t → NoSleeper s → NoSleeper t
unfolding signal test_flag give_up leave
Step-NoSleeper signals k f j = ground arith
Step-NoSleeper (enters i h) k f j = ground (arith, k)
Step-NoSleeper (resumes i h) k f j = ground (arith, k)
Step-NoSleeper {s} (times_out i h) k f j = ground (arith, k f j)
Step-NoSleeper (times_out_late i h) k f j = ground (arith, k f j)
Step-NoSleeper (returns i h) k f j = ground (arith, k f j)
Step-NoSleeper (returns_timed i h) k f j = ground (arith, k f j)

-- In every state that is reached, no thread is parked while the flag is set.
Reach-awake :
    {t : Semaphore} {n : ℕ} → Reach new n t → t.flag ≡ true → (j : ℕ) → t.threads j ≢ parked
unfolding new
Reach-awake here f j = cc
Reach-awake (next r st e) f j = Step-NoSleeper st (Reach-awake r) f j
