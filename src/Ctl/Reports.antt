-- ===== src/Ctl/Reports.antt =====
-- What the commands of tools/vcamctl.c print.
use vcam_kmod.Base.{ℕ, ◌≡◌, refl, arith, Bool, ◌||◌, true, ap, false, some, none}
use Prim.Native.String.{String}
use text.Mathlib.Text.{◌==◌ as str_eq}
use vcam_kmod.Base.Int.{ℤ, pos}
use vcam_kmod.Uapi.{abi_version}
use vcam_kmod.Uapi.Ioc.{Command, get_version, get_stats, poll_delta}
use vcam_kmod.Pool.State.{Pool, zero_stats}
use vcam_kmod.Pool.Control.{poll}
use vcam_kmod.Pool.Control
use vcam_kmod.Ctrl.Dispatch.{handle}
use vcam_kmod.Ctrl.Faults.{ioctl-handle}
use vcam_kmod.Main.Fresh.{nonneg}
use vcam_kmod.Ctl.{Locals, Machine, process, at_ver, at_st, at_poll}
use vcam_kmod.Ctl.Commands.{
  Output, zero_version, zero_poll, usage, version_line, stats_line, poll_line, ask, print_or_fail,
  cmd_version, cmd_stats, cmd_poll, run_command, main,
}

abbrev pub is_command : String → Bool
is_command cmd =
    str_eq cmd "version" || str_eq cmd "stats" || str_eq cmd "poll" || str_eq cmd "selftest"

-- Exit code, output and pool.
abbrev pub Ends : ℕ × Output × Machine → ℕ → Output → Pool → Type 0
Ends o code line p = (o.0 ≡ code) × (o.1 ≡ line) × (o.2.pool ≡ p)

-- The ioctl of a command whose variables are `v`.
asked :
    (c : Command) (addr : ℕ) (m : Machine) (v : Locals) (line : Locals → Output)
    → ask c addr (record m { world = (m.world.0, v) }) line
      ≡ print_or_fail (handle process c m.pool addr (m.world.0, v)) line
unfolding ask
asked c addr m v line =
    ap (λ o. print_or_fail o line)
      (ioctl-handle process m.pool (m.world.0, v) (record { private_data = true }) c addr refl)

-- On an open device, `version`, which is also what an absent argument means, prints the version of
-- the interface and the number of slots, and `stats` the pool's counters, and neither changes the
-- pool; `poll` prints what the pool's poll answers and leaves the pool as the poll does. Each exits
-- with 0. A word that is no command exits with 2 and leaves everything as it is.
pub main_reports :
    (dev : ℕ) (fd : ℤ) (m : Machine) (cmd : String)
    → is_command cmd ≡ false
    → Ends
        (main none (pos dev) fd m)
        0
        (version_line
          (record { abi = abi_version; max_streams = 1; pool_size = m.pool.nslots; reserved = 0 }))
        m.pool
      × Ends (main (some "stats") (pos dev) fd m) 0 (stats_line m.pool.stats) m.pool
      × Ends (main (some "poll") (pos dev) fd m) 0 (poll_line (poll m.pool).0) (poll m.pool).1
      × (main (some cmd) (pos dev) fd m ≡ (2, usage, m))
unfolding main run_command cmd_version cmd_stats cmd_poll print_or_fail handle Control.get_stats
main_reports dev fd m cmd unknown = (
  rw
      (
        nonneg dev,
        asked get_version at_ver m (record (m.world.1) { ver = zero_version })
            (λ v. version_line v.ver),
      )
      (refl, refl, refl),
  rw
      (
        nonneg dev,
        asked get_stats at_st m (record (m.world.1) { st = zero_stats }) (λ v. stats_line v.st),
      )
      (refl, refl, refl),
  rw
      (
        nonneg dev,
        asked poll_delta at_poll m (record (m.world.1) { poll = zero_poll })
            (λ v. poll_line v.poll),
      )
      (refl, refl, refl),
  ground arith,
)
