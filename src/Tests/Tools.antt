-- ===== src/Tests/Tools.antt =====
-- The programs of tools/, and the encodings, at concrete inputs.
use vcam_kmod.Base.{◌↔◌, ◌≡◌, arith}
use vcam_kmod.Base.Int.{pos}
use vcam_kmod.Uapi.Ioc.{submit, number, magic, ioc}
use vcam_kmod.Pool.State.{zero_stats}
use vcam_kmod.Verify.Ioctl.{dir_of, type_of, nr_of, size_in}
use vcam_kmod.Verify.Ioctl
use vcam_kmod.Verify.Check.{kernel_number, number_iff, ioc-kernel}
use vcam_kmod.Device.Memory.{Locals}
use vcam_kmod.Device.Assignments.{first_frame, zero_dequeue}
use vcam_kmod.Tests.{a_pose}

abbrev pub variables : Locals
variables = record {
  ver = record { abi = 0; max_streams = 0; pool_size = 0; reserved = 0 };
  frame = first_frame (pos 0);
  dq = zero_dequeue;
  pose = a_pose;
  range = record { begin_ns = pos 0; end_ns = pos 0; loop = 0; reserved = 0 };
  poll = record { client_attached = 0; width_delta = 0; height_delta = 0; format = 0 };
  base = zero_stats;
  st = zero_stats;
  slot = 0;
  never_held = 0;
}

number_iff_example :
    (number submit ≡ kernel_number submit)
    × ((0x40507603 ≡ number submit) ↔ (
        (dir_of 0x40507603 ≡ 1)
        × (type_of 0x40507603 ≡ 118)
        × (nr_of 0x40507603 ≡ 3)
        × (size_in 0x40507603 ≡ 80)))
number_iff_example = number_iff submit 0x40507603 (omega arith)

ioc-kernel_example :
    let cmd = ioc 3 magic 1 88 in
    (cmd ≡ Ioctl.ioc 3 magic 1 88)
    × (dir_of cmd ≡ 3)
    × (type_of cmd ≡ magic)
    × (nr_of cmd ≡ 1)
    × (size_in cmd ≡ 88)
ioc-kernel_example = ioc-kernel 3 magic 1 88 (omega arith) (omega arith) (omega arith) (omega arith)
