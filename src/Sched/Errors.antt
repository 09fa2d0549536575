-- ===== src/Sched/Errors.antt =====
-- `SchedError` of sched.rs, lines 147 to 157.
use whisez_os.Prelude.{ℕ}

pub data SchedError : Type 0 where
  queue_full timeout no_such_thread : SchedError
  rt_admission_refused : ℕ → ℕ → SchedError
