-- ===== src/Tests.antt =====
-- Concrete inputs: the shim's kernel with one frame of user memory, and pools that calls have made.
pub mod Frames
pub mod References
pub mod Answers
pub mod Rules
pub mod Whole
pub mod Corners
pub mod Threads
pub mod Tools
pub mod Processes
pub mod Holdings
pub mod Streams
pub mod Poses
use vcam_kmod.Base.{
  ℕ, ◌≡◌, Bool, true, false, Option, some, none, List, [], ◌∷◌, ◌==◌, if◌then◌else◌, refl, arith,
}
use vcam_kmod.Base.Int.{ℤ, pos, negsuc}
use vcam_kmod.Kernel.{Kernel, Result, ok, err}
use vcam_kmod.Uapi.{Dequeue, Struct, Val, Frame, Format, Pose, Plane}
use vcam_kmod.Uapi
use vcam_kmod.Logic.Format.{yv12, format_validate}
use vcam_kmod.Pool.State.{Pool, init, zero_pool, slot_at, held, filled, idle}
use vcam_kmod.Pool.Step.{Call, step, run}
use vcam_kmod.Pool.Consumer.{dequeue, take}
use vcam_kmod.Pool.Producer.{submit, register}
use vcam_kmod.Pool.Invariant.Defs.{IsValid}
use vcam_kmod.Pool.Safety.{init-IsValid, run-IsValid}
use vcam_kmod.Shim.{Fds, dma_buf_get}
use vcam_kmod.Shim.Counts.{shim}

-- 64 by 64 pixels in three planes.
abbrev pub small : Format
small = record {
  width = 64;
  height = 64;
  fourcc = yv12;
  num_planes = 3;
  plane =
      record { offset = 0; stride = 64 }
      ∷ record { offset = 4096; stride = 32 }
      ∷ record { offset = 5120; stride = 32 }
      ∷ [];
}

abbrev pub a_frame : Frame
a_frame = record {
  fd = pos 3;
  stream_id = 0;
  slot = 0;
  rotation_deg = 0;
  flags = 0;
  seq = 5;
  timestamp_ns = pos 1000;
  fmt = small;
}

abbrev pub a_pose : Pose
a_pose = record { flags = 2; rotation_deg = 0; media_rotation_deg = pos 90; reserved = 0 }

-- User memory holds one frame, at every address but 0, which faults.
abbrev pub load : (s : Struct) → ℕ → Frame → Option (Val s)
load Uapi.version addr m = none
load Uapi.frame addr m = if addr == 0 then none else some m
load Uapi.u32 addr m = if addr == 0 then none else some m.slot
load Uapi.dequeue addr m = none
load Uapi.u64 addr m = if addr == 0 then none else some m.seq
load Uapi.range addr m = none
load Uapi.pose addr m = if addr == 0 then none else some a_pose
load Uapi.stats addr m = none
load Uapi.poll addr m = none

abbrev pub store : (s : Struct) → ℕ → Val s → Frame → Bool × Frame
store Uapi.frame addr v m = if addr == 0 then (false, m) else (true, v)
store s addr v m = if addr == 0 then (false, m) else (true, m)

abbrev pub kernel : Kernel
kernel = shim Frame load store (ok tt)

-- Every descriptor below 64 is a buffer that nobody holds.
abbrev pub fresh_fds : Fds
fresh_fds j = record { size = 4096; refcnt = 0; peak = 0 }

abbrev pub world : kernel.World
world = (fresh_fds, a_frame)

abbrev pub with_world : List Call → List (Call × kernel.World)
with_world [] = []
with_world (c ∷ cs) = (c, world) ∷ with_world cs

-- Two buffers, two frames, of which the first is taken.
abbrev pub two_calls : List Call
two_calls =
    Call.register (pos 3) small
    ∷ Call.register (pos 4) small
    ∷ Call.submit 0 5 (pos 1000) 0 0
    ∷ Call.submit 1 7 (pos 2000) 0 0
    ∷ Call.dequeue
    ∷ []

abbrev pub empty_pool : Pool
empty_pool = (init zero_pool 2).1

pub empty_pool-IsValid : IsValid empty_pool
empty_pool-IsValid = (init-IsValid zero_pool 2 (omega arith) (omega arith)).1

abbrev pub busy_pool : Pool
busy_pool = (run kernel (with_world two_calls) empty_pool).1

pub busy_pool-IsValid : IsValid busy_pool
busy_pool-IsValid = run-IsValid kernel (with_world two_calls) empty_pool-IsValid

-- The first frame is taken, the second waits.
pub busy_slots :
    ((slot_at busy_pool.slot 0).state ≡ held)
    × ((slot_at busy_pool.slot 0).seq ≡ 5)
    × ((slot_at busy_pool.slot 1).state ≡ filled)
    × ((slot_at busy_pool.slot 1).seq ≡ 7)
    × (busy_pool.nslots ≡ 2)
    × (busy_pool.last_submitted_seq ≡ 7)
unfolding run init step dequeue take submit register format_validate dma_buf_get
busy_slots = (refl, refl, refl, refl, refl, refl)

-- One buffer, under a pose that rotates.
abbrev pub posed_pool : Pool
posed_pool =
    (run kernel (with_world (Call.register (pos 3) small ∷ Call.set_pose a_pose ∷ [])) empty_pool).1

pub posed_pool-IsValid : IsValid posed_pool
posed_pool-IsValid =
    run-IsValid kernel (with_world (Call.register (pos 3) small ∷ Call.set_pose a_pose ∷ []))
      empty_pool-IsValid

-- What a dequeue of frame 5 answers under that pose.
abbrev pub posed_dequeue : Dequeue
posed_dequeue = record {
  seq = 5;
  slot = 0;
  resolved_angle_deg = 180;
  resolved_mirror = 1;
  reserved = 0;
}
