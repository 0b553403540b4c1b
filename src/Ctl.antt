-- ===== src/Ctl.antt =====
-- tools/vcamctl.c: its self-test, as the ioctls that it makes, one after the other.
pub mod Selftest
pub mod Commands
pub mod Alloc
pub mod Leaks
pub mod Whole
pub mod Closed
pub mod Reports
use vcam_kmod.Base.{
  ℕ, Bool, true, false, ◌&&◌, ◌||◌, not, Option, none, some, [], ◌∷◌, ◌==◌, if◌then◌else◌,
  replicate,
}
use vcam_kmod.Base.Int.{ℤ, pos, negsuc, ltb_ℤ}
use vcam_kmod.Uapi.{
  Struct, Val, Version, Stats, Poll, Frame, Format, Dequeue, Pose, Range, f_autopose,
}
use vcam_kmod.Uapi.Ioc.{
  Command, register_buf, set_pose, set_range, submit, dequeue_frame, release, number,
}
use vcam_kmod.Kernel.{Kernel, Result, ok, err}
use vcam_kmod.Logic.Format.{yv12}
use vcam_kmod.Pool.State.{Pool}
use vcam_kmod.Ctrl.Dispatch.{File, ioctl}
use vcam_kmod.Shim.Counts.{shim}

-- The variables of the commands that ioctls read and write.
pub record Locals : Type 0 where
  pub ver : Version
  pub st : Stats
  pub poll : Poll
  pub frame : Frame
  pub dq : Dequeue
  pub pose : Pose
  pub range : Range

-- Their addresses; `at_dq_seq` is that of `dq.seq`.
abbrev pub at_frame : ℕ
at_frame = 1

abbrev pub at_dq : ℕ
at_dq = 2

abbrev pub at_pose : ℕ
at_pose = 3

abbrev pub at_range : ℕ
at_range = 4

abbrev pub at_dq_seq : ℕ
at_dq_seq = 5

abbrev pub at_ver : ℕ
at_ver = 6

abbrev pub at_st : ℕ
at_st = 7

abbrev pub at_poll : ℕ
at_poll = 8

abbrev pub load : (s : Struct) → ℕ → Locals → Option (Val s)
load Struct.frame addr v = if addr == at_frame then some v.frame else none
load Struct.u64 addr v = if addr == at_dq_seq then some v.dq.seq else none
load Struct.range addr v = if addr == at_range then some v.range else none
load Struct.pose addr v = if addr == at_pose then some v.pose else none
load s addr v = none

abbrev pub store : (s : Struct) → ℕ → Val s → Locals → Bool × Locals
store Struct.frame addr x v =
    if addr == at_frame then (true, record v { frame = x }) else (false, v)
store Struct.dequeue addr x v = if addr == at_dq then (true, record v { dq = x }) else (false, v)
store Struct.version addr x v = if addr == at_ver then (true, record v { ver = x }) else (false, v)
store Struct.stats addr x v = if addr == at_st then (true, record v { st = x }) else (false, v)
store Struct.poll addr x v = if addr == at_poll then (true, record v { poll = x }) else (false, v)
store s addr x v = (false, v)

-- The harness's registry of buffers, beside the program's variables.
abbrev pub process : Kernel
process = shim Locals load store (ok tt)

-- The module's pool and the program's machine.
pub record Machine : Type 0 where
  pub pool : Pool
  pub world : process.World

abbrev pub assign : Machine → (Locals → Locals) → Machine
assign m f = record m { world = (m.world.0, f m.world.1) }

-- What follows an ioctl: the next step, or the exit with 1.
unfoldable pub proceed :
    Result (Unit {0}) × Pool × process.World → (Machine → ℕ × Machine) → ℕ × Machine
proceed (ok _, p, w) next = next (record { pool = p; world = w })
proceed (err _, p, w) next = (1, record { pool = p; world = w })

-- `ioctl` on the opened device.
unfoldable pub checked : Command → ℕ → Machine → (Machine → ℕ × Machine) → ℕ × Machine
unfolding proceed
checked c addr m next =
    proceed (ioctl process (record { private_data = true }) (number c) addr m.pool m.world) next

-- The frame that is registered: 64 by 64 pixels of YV12.
abbrev pub first_frame : ℤ → Frame
first_frame fd = record {
  fd = fd;
  stream_id = 0;
  slot = 0;
  rotation_deg = 0;
  flags = 0;
  seq = 0;
  timestamp_ns = pos 0;
  fmt = record {
    width = 64;
    height = 64;
    fourcc = yv12;
    num_planes = 3;
    plane =
        record { offset = 0; stride = 64 }
        ∷ record { offset = 0; stride = 32 }
        ∷ record { offset = 0; stride = 32 }
        ∷ [];
  };
}

abbrev pub zero_dequeue : Dequeue
zero_dequeue = record {
  seq = 0;
  slot = 0;
  resolved_angle_deg = 0;
  resolved_mirror = 0;
  reserved = 0;
}

-- From the dequeue's answer on.
unfoldable pub judge : Machine → ℕ × Machine
unfolding checked
judge m =
    let dq = m.world.1.dq in
    if not (dq.resolved_angle_deg == 180) || not (dq.resolved_mirror == 1)
    then (1, m)
    else checked release at_dq_seq m λ m. (0, m)

-- The frame that is submitted.
unfoldable pub exchange : Machine → ℕ × Machine
unfolding checked judge
exchange m =
    checked submit at_frame
      (assign m λ v. record v { frame = record (v.frame) { seq = 1; timestamp_ns = pos 1000 } })
      λ m. checked dequeue_frame at_dq (assign m λ v. record v { dq = zero_dequeue }) judge

-- The pose and the range are set.
unfoldable pub configure : Machine → ℕ × Machine
unfolding checked exchange
configure m =
    checked set_pose at_pose
      (assign m λ v. record v {
        pose = record {
          flags = f_autopose;
          rotation_deg = 0;
          media_rotation_deg = pos 90;
          reserved = 0;
        };
      })
      λ m.
        checked set_range at_range
          (assign m λ v. record v {
            range = record { begin_ns = pos 0; end_ns = negsuc 0; loop = 1; reserved = 0 };
          })
          exchange

-- `fd` is what `alloc_buffer` returns; its mapping and the output are left out.
unfoldable pub cmd_selftest : ℤ → Machine → ℕ × Machine
unfolding checked configure
cmd_selftest fd m =
    if ltb_ℤ fd (pos 0)
    then (1, m)
    else checked register_buf at_frame (assign m λ v. record v { frame = first_frame fd }) configure
