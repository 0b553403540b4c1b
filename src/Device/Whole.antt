-- ===== src/Device/Whole.antt =====
-- tools/vcam_selftest.c: the whole of `main`, with the system calls around the ioctls.
use vcam_kmod.Base.{ℕ, Option, none, some, if◌then◌else◌}
use vcam_kmod.Base.Int.{pos}
use vcam_kmod.Process.{Os, vcam_device, Allocated}
use vcam_kmod.Device.Memory.{Machine}
use vcam_kmod.Device.Expect.{execute_all}
use vcam_kmod.Device.Program.{baseline, used, judged}
use vcam_kmod.Device.Alloc.{alloc_dmabuf}

-- `luma * 3 / 2` for 64 by 64 pixels.
abbrev pub frame_size : ℕ
frame_size = 6144

module _ (os : Os) where
  -- The exit code, and what the program leaves.
  abbrev pub Ended : Type 0
  Ended = ℕ × os.World × Machine

  -- The end of `main`, on a pool that has been used and otherwise.
  unfoldable pub shut_down : (dev fd map : ℕ) → Machine → os.World → os.World
  shut_down dev fd map m w =
      if used m
      then os.munmap map frame_size (os.close fd (os.close dev w))
      else os.close dev (os.close fd (os.munmap map frame_size w))

  -- `m` is the machine after the baseline.
  unfoldable pub compared : (dev fd map : ℕ) → os.World → Machine → Ended
  unfolding shut_down
  compared dev fd map w m =
      let (code, m') = judged (pos fd) m in (code, shut_down dev fd map m w, m')

  unfoldable pub allocated_main : (dev : ℕ) → Allocated os → Machine → Ended
  unfolding compared
  allocated_main dev (none, w) m = (1, os.close dev w, m)
  allocated_main dev (some (fd, map), w) m = compared dev fd map w (execute_all baseline m)

  unfoldable pub opened_main : Option ℕ × os.World → Machine → Ended
  unfolding allocated_main
  opened_main (none, w) m = (1, w, m)
  opened_main (some dev, w) m = allocated_main dev (alloc_dmabuf os frame_size w) m

  unfoldable pub whole_main : os.World → Machine → Ended
  unfolding opened_main
  whole_main w m = opened_main (os.open_file vcam_device w) m
