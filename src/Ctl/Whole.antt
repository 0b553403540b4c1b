-- ===== src/Ctl/Whole.antt =====
-- tools/vcamctl.c: the whole of `main`, with the system calls around the ioctls.
use vcam_kmod.Base.{ℕ, Option, none, some, if◌then◌else◌}
use Prim.Native.String.{String}
use text.Mathlib.Text.{◌==◌ as str_eq}
use vcam_kmod.Process.{Os, vcam_device, Allocated}
use vcam_kmod.Process.Descriptors.{allocated_fd}
use vcam_kmod.Ctl.{Machine}
use vcam_kmod.Ctl.Commands.{Output, nothing, command_of, run_command}

-- `luma * 3 / 2` for 64 by 64 pixels.
abbrev pub frame_size : ℕ
frame_size = 6144

-- `alloc` is the `alloc_buffer` of the build.
module _ (os : Os) (alloc : ℕ → os.World → Allocated os) where
  -- The exit code and the output, and what the program leaves.
  abbrev pub Ended : Type 0
  Ended = ℕ × Output × os.World × Machine

  -- The buffer that a command allocates: only the self-test does.
  unfoldable pub buffer_for : String → os.World → Allocated os
  buffer_for cmd w = if str_eq cmd "selftest" then alloc frame_size w else (none, w)

  -- `out:` of the self-test.
  unfoldable pub freed_buffer : Allocated os → os.World
  freed_buffer (none, w) = w
  freed_buffer (some (fd, map), w) = os.close fd (os.munmap map frame_size w)

  unfoldable pub opened_main : String → Option ℕ × os.World → Machine → Ended
  unfolding buffer_for freed_buffer
  opened_main cmd (none, w) m = (1, nothing, w, m)
  opened_main cmd (some dev, w) m =
      let buffer = buffer_for cmd w in
      let (code, out, m') = run_command cmd (allocated_fd buffer.0) m in
      (code, out, os.close dev (freed_buffer buffer), m')

  unfoldable pub whole_main : Option String → os.World → Machine → Ended
  unfolding opened_main
  whole_main arg w m = opened_main (command_of arg) (os.open_file vcam_device w) m
