-- ===== src/Device/Expect.antt =====
-- tools/vcam_selftest.c: `expect_ok`, `expect_err` and `expect_val`, and the ioctls that they judge.
use vcam_kmod.Base.{ℕ, ◌+◌, ◌%◌, ◌^◌, true, not, List, [], ◌∷◌, ◌==◌, if◌then◌else◌}
use vcam_kmod.Kernel.{
  Result, Errno, ok, err, einval, ebusy, enoent, eagain, esrch, efault, enodev, enotty, os,
}
use vcam_kmod.Uapi.Ioc.{Command, number}
use vcam_kmod.Ctrl.Dispatch.{ioctl}
use vcam_kmod.Device.Memory.{Locals, Variable, address, process, Machine}

-- The `errno` that a failed ioctl leaves.
abbrev pub errno : Errno → ℕ
errno einval = 22
errno ebusy = 16
errno enoent = 2
errno eagain = 11
errno esrch = 3
errno efault = 14
errno enodev = 19
errno enotty = 25
errno (os n) = n

-- `failures++` on an `unsigned`.
abbrev pub fail : Machine → Machine
fail m = record m { failures = (m.failures + 1) % 2 ^ 32 }

unfoldable pub expect_ok : Result (Unit {0}) → Machine → Machine
expect_ok (err e) m = fail m
expect_ok (ok _) m = m

unfoldable pub expect_err : Result (Unit {0}) → Errno → Machine → Machine
expect_err (ok _) want m = fail m
expect_err (err e) want m = if not (errno e == errno want) then fail m else m

unfoldable pub expect_val : (got want : ℕ) → Machine → Machine
expect_val got want m = if not (got == want) then fail m else m

-- `ioctl` on the opened device.
unfoldable pub call : Command → Variable → Machine → Result (Unit {0}) × Machine
call c x m =
    let (r, p, w) =
      ioctl process (record { private_data = true }) (number c) (address x) m.pool m.world in
    (r, record m { pool = p; world = w })

-- A statement of `main`.
pub data Statement : Type 0 where
  assign : (Locals → Locals) → Statement
  ok_of : Command → Variable → Statement
  err_of : Command → Variable → Errno → Statement
  val_of : (Locals → ℕ) → ℕ → Statement
  nonzero_of : (Locals → ℕ) → Statement

unfoldable pub execute : Statement → Machine → Machine
unfolding expect_ok expect_err expect_val call
execute (assign f) m = record m { world = (m.world.0, f m.world.1) }
execute (ok_of c x) m = let (r, m') = call c x m in expect_ok r m'
execute (err_of c x e) m = let (r, m') = call c x m in expect_err r e m'
execute (val_of got want) m = expect_val (got m.world.1) want m
execute (nonzero_of got) m = if got m.world.1 == 0 then fail m else m

unfoldable pub execute_all : List Statement → Machine → Machine
unfolding execute
execute_all [] m = m
execute_all (s ∷ ss) m = execute_all ss (execute s m)
