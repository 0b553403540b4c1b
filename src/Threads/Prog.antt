-- ===== src/Threads/Prog.antt =====
-- The programs of threads: what src/vcam_pool.c does to shared state, step by step.
use vcam_kmod.Pool.State.{Pool}
use vcam_kmod.Pool.Step.{Reply}

-- `W` is the state of the machine. `lock` and `unlock` are those of the pool's mutex. A `service` of
-- the kernel changes the machine and lets the program go on by the state that it met. Fields that
-- the code reads or writes one after the other under the mutex are one `read` or one `write`.
pub data Prog (W : Type 0) : Type 0 where
  done : Reply → Prog W
  lock unlock : Prog W → Prog W
  read : (Pool → Prog W) → Prog W
  write : Pool → Prog W → Prog W
  service : (W → W) → (W → Prog W) → Prog W
