-- ===== src/Pool/State.antt =====
-- The pool's state: the structures of include/vcam_kmod.h and `vcam_pool_init` of src/vcam_pool.c.
-- A pointer argument is a value here, so the NULL guards of the pool's functions have no counterpart.
-- Each function holds the pool's mutex from its first access to the pool to its last, so it is one
-- step; only `vcam_pool_dequeue` reads a slot later, which Pool/Unlocked is about.
use vcam_kmod.Base.{
  ℕ, ◌+◌, ◌%◌, ◌^◌, Bool, true, false, ◌||◌, Option, none, List, ltb, ◌==◌, if◌then◌else◌, get_or,
  replicate,
}
use vcam_kmod.Base.Int.{ℤ, pos, negsuc}
use vcam_kmod.Uapi.{Format, Pose, Stats, max_planes}
use vcam_kmod.Kernel.{Result, ok, err, einval}

abbrev pub max_slots : ℕ
max_slots = 8

abbrev pub backend_bridge : ℕ
backend_bridge = 0

abbrev pub backend_pipeline : ℕ
backend_pipeline = 1

pub data SlotState : Type 0 where
  unbound idle filled held : SlotState

abbrev pub is_unbound : SlotState → Bool
is_unbound unbound = true
is_unbound _ = false

abbrev pub is_idle : SlotState → Bool
is_idle idle = true
is_idle _ = false

abbrev pub is_filled : SlotState → Bool
is_filled filled = true
is_filled _ = false

abbrev pub is_held : SlotState → Bool
is_held held = true
is_held _ = false

-- `dbuf` is `none` for NULL.
pub record Slot : Type 0 where
  pub dbuf : Option ℕ
  pub fd : ℤ
  pub seq : ℕ
  pub timestamp_ns : ℤ
  pub state : SlotState
  pub rotation_deg : ℕ
  pub flags : ℕ
  pub resolved_angle : ℕ
  pub resolved_mirror : ℕ
  pub fmt : Format

pub record Pool : Type 0 where
  pub slot : List Slot
  pub nslots : ℕ
  pub backend : ℕ
  pub last_submitted_seq : ℕ
  pub last_dequeued_seq : ℕ
  pub active_seq : ℕ
  pub range_begin_ns : ℤ
  pub range_end_ns : ℤ
  pub loop : ℕ
  pub client_attached : ℕ
  pub pose : Pose
  pub reported_w : ℕ
  pub reported_h : ℕ
  pub reported_format : ℕ
  pub last_polled_w : ℕ
  pub last_polled_h : ℕ
  pub wraps_due : ℕ
  pub stats : Stats

-- What `memset` to 0 makes of each structure.
abbrev zero_format : Format
zero_format = record {
  width = 0;
  height = 0;
  fourcc = 0;
  num_planes = 0;
  plane = replicate max_planes (record { offset = 0; stride = 0 });
}

abbrev pub zero_slot : Slot
zero_slot = record {
  dbuf = none;
  fd = pos 0;
  seq = 0;
  timestamp_ns = pos 0;
  state = unbound;
  rotation_deg = 0;
  flags = 0;
  resolved_angle = 0;
  resolved_mirror = 0;
  fmt = zero_format;
}

abbrev pub zero_stats : Stats
zero_stats = record {
  submitted = 0;
  dequeued = 0;
  released = 0;
  rejected_busy = 0;
  rejected_unknown = 0;
  dequeued_empty = 0;
  looped = 0;
  dropped_late = 0;
  bound = 0;
}

abbrev zero_pose : Pose
zero_pose = record { flags = 0; rotation_deg = 0; media_rotation_deg = pos 0; reserved = 0 }

abbrev pub zero_pool : Pool
zero_pool = record {
  slot = replicate max_slots zero_slot;
  nslots = 0;
  backend = 0;
  last_submitted_seq = 0;
  last_dequeued_seq = 0;
  active_seq = 0;
  range_begin_ns = pos 0;
  range_end_ns = pos 0;
  loop = 0;
  client_attached = 0;
  pose = zero_pose;
  reported_w = 0;
  reported_h = 0;
  reported_format = 0;
  last_polled_w = 0;
  last_polled_h = 0;
  wraps_due = 0;
  stats = zero_stats;
}

-- `pool->slot[i]`. The reads of the code are within the array; a read beyond it would be blank here.
abbrev pub slot_at : List Slot → ℕ → Slot
slot_at slots i = get_or slots i zero_slot

-- `++` on a `u64`.
abbrev pub inc64 : ℕ → ℕ
inc64 n = (n + 1) % 2 ^ 64

-- The two counters that rejections share.
abbrev pub reject_unknown : Pool → Pool
reject_unknown p = record p {
  stats = record (p.stats) { rejected_unknown = inc64 p.stats.rejected_unknown };
}

abbrev pub reject_busy : Pool → Pool
reject_busy p = record p {
  stats = record (p.stats) { rejected_busy = inc64 p.stats.rejected_busy };
}

unfoldable pub init : Pool → ℕ → Result (Unit {0}) × Pool
init p nslots = if nslots == 0 || ltb max_slots nslots then (err einval, p) else (
  ok tt,
  record zero_pool {
    nslots = nslots;
    backend = backend_bridge;
    range_begin_ns = pos 0;
    range_end_ns = negsuc 0;
    loop = 1;
  },
)
