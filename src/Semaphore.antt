-- ===== src/Semaphore.antt =====
-- src/semaphore_lite.rs with any number of waiting threads. The mutex makes each test of the flag,
-- with what follows up to the next wait or return, one atomic step. parking_lot's condition
-- variable has no spurious wakeups: a parked thread goes on after a notification, or, in
-- `wait_timeout`, when its time is up.
pub mod Atomic
pub mod Laws
use paperlog.Base.{ℕ, suc, ◌+◌, ◌≡◌, ◌==◌, Bool, true, false, if◌then◌else◌, Option, none, some}

-- Where a thread stands in `wait` or `wait_timeout`.
pub data Place : Type 0 where
  outside : Place  -- not in a call, or about to take the mutex
  parked : Place  -- in `cond_var.wait`
  woken : Place  -- notified, before it has the mutex again
  passed : Place  -- the call returns with the flag taken
  gave_up : Place  -- the call returns because the time was up

pub record Semaphore : Type 0 where
  pub flag : Bool
  pub threads : ℕ → Place
  pub passes : ℕ  -- how many waits have taken the flag, a history

unfoldable pub new : Semaphore
new = record { flag = false; threads = λ _. outside; passes = 0 }

abbrev pub update : (ℕ → Place) → ℕ → Place → ℕ → Place
update f i p j = if i == j then p else f j

-- `notify_all`
abbrev pub notify : Place → Place
notify parked = woken
notify p = p

unfoldable pub signal : Semaphore → Semaphore
signal s = record s { flag = true; threads = λ i. notify (s.threads i) }

-- The test of the loop, with the mutex held.
unfoldable pub test_flag : Semaphore → ℕ → Semaphore
test_flag s i =
    if s.flag
    then record s { flag = false; threads = update s.threads i passed; passes = suc s.passes }
    else record s { threads = update s.threads i parked }

unfoldable pub give_up : Semaphore → ℕ → Semaphore
give_up s i = record s { threads = update s.threads i gave_up }

unfoldable pub leave : Semaphore → ℕ → Semaphore
leave s i = record s { threads = update s.threads i outside }

pub data Step (s : Semaphore) : Semaphore → Type 0 where
  signals : Step s (signal s)
  enters : (i : ℕ) → s.threads i ≡ outside → Step s (test_flag s i)
  resumes : (i : ℕ) → s.threads i ≡ woken → Step s (test_flag s i)
  times_out : (i : ℕ) → s.threads i ≡ parked → Step s (give_up s i)
  -- notified, but after its time was up: `timed_out()` holds and the flag is not looked at
  times_out_late : (i : ℕ) → s.threads i ≡ woken → Step s (give_up s i)
  returns : (i : ℕ) → s.threads i ≡ passed → Step s (leave s i)
  returns_timed : (i : ℕ) → s.threads i ≡ gave_up → Step s (leave s i)

abbrev pub signals_in : {s t : Semaphore} → Step s t → ℕ
signals_in signals = 1
signals_in _ = 0

-- `n` signals on the way.
pub data Reach (s : Semaphore) : ℕ → Semaphore → Type 0 where
  here : Reach s 0 s
  next :
      {n m : ℕ} {t u : Semaphore}
      → Reach s n t
      → (st : Step t u) → m ≡ signals_in st + n
      → Reach s m u
