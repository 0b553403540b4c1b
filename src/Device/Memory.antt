-- ===== src/Device/Memory.antt =====
-- tools/vcam_selftest.c: the variables of `main` that ioctls read and write.
use vcam_kmod.Base.{ℕ, Bool, true, false, Option, none, some, ◌==◌, if◌then◌else◌}
use vcam_kmod.Uapi.{Struct, Val, Version, Frame, Dequeue, Pose, Range, Poll, Stats}
use vcam_kmod.Kernel.{Kernel, ok}
use vcam_kmod.Pool.State.{Pool}
use vcam_kmod.Shim.Counts.{shim}

pub record Locals : Type 0 where
  pub ver : Version
  pub frame : Frame
  pub dq : Dequeue
  pub pose : Pose
  pub range : Range
  pub poll : Poll
  pub base : Stats
  pub st : Stats
  pub slot : ℕ
  pub never_held : ℕ

-- Their addresses; the last is that of `dq.seq`.
pub data Variable : Type 0 where
  ver frame dq pose range poll base st slot never_held dq_seq : Variable

abbrev pub address : Variable → ℕ
address ver = 1
address frame = 2
address dq = 3
address pose = 4
address range = 5
address poll = 6
address base = 7
address st = 8
address slot = 9
address never_held = 10
address dq_seq = 11

abbrev pub load : (s : Struct) → ℕ → Locals → Option (Val s)
load Struct.frame addr v = if addr == address frame then some v.frame else none
load Struct.u32 addr v = if addr == address slot then some v.slot else none
load Struct.u64 addr v =
    if addr == address never_held
    then some v.never_held
    else if addr == address dq_seq
    then some v.dq.seq
    else none
load Struct.range addr v = if addr == address range then some v.range else none
load Struct.pose addr v = if addr == address pose then some v.pose else none
load s addr v = none

abbrev pub store : (s : Struct) → ℕ → Val s → Locals → Bool × Locals
store Struct.version addr x v =
    if addr == address ver then (true, record v { ver = x }) else (false, v)
store Struct.frame addr x v =
    if addr == address frame then (true, record v { frame = x }) else (false, v)
store Struct.dequeue addr x v =
    if addr == address dq then (true, record v { dq = x }) else (false, v)
store Struct.poll addr x v =
    if addr == address poll then (true, record v { poll = x }) else (false, v)
store Struct.stats addr x v =
    if addr == address base
    then (true, record v { base = x })
    else if addr == address st
    then (true, record v { st = x })
    else (false, v)
store s addr x v = (false, v)

-- The harness's registry of buffers, beside the program's variables.
abbrev pub process : Kernel
process = shim Locals load store (ok tt)

-- The module's pool, the program's machine, and the static `failures`.
pub record Machine : Type 0 where
  pub pool : Pool
  pub world : process.World
  pub failures : ℕ
