-- ===== src/Ctl/Commands.antt =====
-- tools/vcamctl.c: the commands that print, and `main`.
use vcam_kmod.Base.{ℕ, true, Option, some, none, if◌then◌else◌}
use Prim.Native.String.{String}
use text.Mathlib.Text.{◌==◌ as str_eq}
use vcam_kmod.Base.Int.{ℤ, pos, ltb_ℤ}
use vcam_kmod.Uapi.{Version, Stats, Poll}
use vcam_kmod.Uapi.Ioc.{Command, get_version, get_stats, poll_delta, number}
use vcam_kmod.Kernel.{Result, ok, err}
use vcam_kmod.Pool.State.{Pool, zero_stats}
use vcam_kmod.Ctrl.Dispatch.{ioctl}
use vcam_kmod.Ctl.{Locals, Machine, process, assign, at_ver, at_st, at_poll, cmd_selftest}

-- What a command writes to its output, but for the error messages and the lines of the self-test.
pub data Output : Type 0 where
  nothing usage : Output
  version_line : Version → Output
  stats_line : Stats → Output
  poll_line : Poll → Output

-- An ioctl, and what is printed from the variables if it succeeds.
unfoldable pub print_or_fail :
    Result (Unit {0}) × Pool × process.World → (Locals → Output) → ℕ × Output × Machine
print_or_fail (err e, p, w) line = (1, nothing, record { pool = p; world = w })
print_or_fail (ok _, p, w) line = (0, line w.1, record { pool = p; world = w })

unfoldable pub ask : Command → ℕ → Machine → (Locals → Output) → ℕ × Output × Machine
unfolding print_or_fail
ask c addr m line =
    print_or_fail (ioctl process (record { private_data = true }) (number c) addr m.pool m.world)
      line

-- The structures after `memset`.
abbrev pub zero_version : Version
zero_version = record { abi = 0; max_streams = 0; pool_size = 0; reserved = 0 }

abbrev pub zero_poll : Poll
zero_poll = record { client_attached = 0; width_delta = 0; height_delta = 0; format = 0 }

unfoldable pub cmd_version : Machine → ℕ × Output × Machine
unfolding ask
cmd_version m =
    ask get_version at_ver (assign m λ v. record v { ver = zero_version }) λ v. version_line v.ver

unfoldable pub cmd_stats : Machine → ℕ × Output × Machine
unfolding ask
cmd_stats m = ask get_stats at_st (assign m λ v. record v { st = zero_stats }) λ v. stats_line v.st

unfoldable pub cmd_poll : Machine → ℕ × Output × Machine
unfolding ask
cmd_poll m =
    ask poll_delta at_poll (assign m λ v. record v { poll = zero_poll }) λ v. poll_line v.poll

-- `arg` is `argv[1]`, if there is one, and `dev` the descriptor of the device; `fd` is what
-- `alloc_buffer` returns to the self-test.
unfoldable pub run_command : String → (fd : ℤ) → Machine → ℕ × Output × Machine
unfolding cmd_version cmd_stats cmd_poll
run_command cmd fd m =
    if str_eq cmd "version"
    then cmd_version m
    else if str_eq cmd "stats"
    then cmd_stats m
    else if str_eq cmd "poll"
    then cmd_poll m
    else if str_eq cmd "selftest"
    then (let (rc, m') = cmd_selftest fd m in (rc, nothing, m'))
    else (2, usage, m)

abbrev pub command_of : Option String → String
command_of (some cmd) = cmd
command_of none = "version"

unfoldable pub main : Option String → (dev fd : ℤ) → Machine → ℕ × Output × Machine
unfolding run_command
main arg dev fd m = if ltb_ℤ dev (pos 0) then (1, nothing, m) else run_command (command_of arg) fd m
