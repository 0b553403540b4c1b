-- ===== src/Uapi.antt =====
-- include/vcam_uapi.h: the structures that cross the ioctl boundary, and their flags.
-- A `vcam_u32` or `vcam_u64` is a native number, a `vcam_s32` or `vcam_s64` an integer; a C array
-- is a list.
pub mod Layout
pub mod Ioc
use vcam_kmod.Base.{ℕ, List}
use vcam_kmod.Base.Int.{ℤ}

abbrev pub abi_version : ℕ
abi_version = 1

abbrev pub max_planes : ℕ
max_planes = 3

abbrev pub f_mirror : ℕ
f_mirror = 1

abbrev pub f_autopose : ℕ
f_autopose = 2

pub record Version : Type 0 where
  pub abi : ℕ
  pub max_streams : ℕ
  pub pool_size : ℕ
  pub reserved : ℕ

pub record Plane : Type 0 where
  pub offset : ℕ
  pub stride : ℕ

pub record Format : Type 0 where
  pub width : ℕ
  pub height : ℕ
  pub fourcc : ℕ
  pub num_planes : ℕ
  pub plane : List Plane

pub record Frame : Type 0 where
  pub fd : ℤ
  pub stream_id : ℕ
  pub slot : ℕ
  pub rotation_deg : ℕ
  pub flags : ℕ
  pub seq : ℕ
  pub timestamp_ns : ℤ
  pub fmt : Format

pub record Range : Type 0 where
  pub begin_ns : ℤ
  pub end_ns : ℤ
  pub loop : ℕ
  pub reserved : ℕ

pub record Dequeue : Type 0 where
  pub seq : ℕ
  pub slot : ℕ
  pub resolved_angle_deg : ℕ
  pub resolved_mirror : ℕ
  pub reserved : ℕ

pub record Pose : Type 0 where
  pub flags : ℕ
  pub rotation_deg : ℕ
  pub media_rotation_deg : ℤ
  pub reserved : ℕ

pub record Poll : Type 0 where
  pub client_attached : ℕ
  pub width_delta : ℕ
  pub height_delta : ℕ
  pub format : ℕ

pub record Stats : Type 0 where
  pub submitted : ℕ
  pub dequeued : ℕ
  pub released : ℕ
  pub rejected_busy : ℕ
  pub rejected_unknown : ℕ
  pub dequeued_empty : ℕ
  pub looped : ℕ
  pub dropped_late : ℕ
  pub bound : ℕ

-- The types that a command's argument can point to, and the value that one holds.
pub data Struct : Type 0 where
  version frame u32 dequeue u64 range pose stats poll : Struct

abbrev pub Val : Struct → Type 0
Val version = Version
Val frame = Frame
Val u32 = ℕ
Val dequeue = Dequeue
Val u64 = ℕ
Val range = Range
Val pose = Pose
Val stats = Stats
Val poll = Poll
