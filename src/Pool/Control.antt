-- ===== src/Pool/Control.antt =====
-- The setters of src/vcam_pool.c, its delta poll and its counters.
use vcam_kmod.Base.{ℕ, ◌-◌, ◌^◌, ◌&&◌, not, bit_or, ◌==◌, if◌then◌else◌}
use vcam_kmod.Base.Int.{pos, eqb_ℤ, ltb_ℤ}
use vcam_kmod.Uapi.{Range, Pose, Poll, Stats, f_mirror, f_autopose}
use vcam_kmod.Kernel.{Result, ok, err, einval}
use vcam_kmod.Logic.Range.{to_end}
use vcam_kmod.Logic.Pose.{has_flag}
use vcam_kmod.Pool.State.{Pool, backend_bridge, backend_pipeline}

unfoldable pub poll : Pool → Poll × Pool
poll p = (
  record {
    client_attached = p.client_attached;
    width_delta = if p.reported_w == p.last_polled_w then 0 else p.reported_w;
    height_delta = if p.reported_h == p.last_polled_h then 0 else p.reported_h;
    format = p.reported_format;
  },
  record p {
    last_polled_w = if p.reported_w == p.last_polled_w then p.last_polled_w else p.reported_w;
    last_polled_h = if p.reported_h == p.last_polled_h then p.last_polled_h else p.reported_h;
    reported_format = 0;
  },
)

unfoldable pub set_range : Pool → Range → Result (Unit {0}) × Pool
set_range p range =
    if not (eqb_ℤ range.end_ns to_end) && ltb_ℤ range.end_ns range.begin_ns
    then (err einval, p)
    else if ltb_ℤ range.begin_ns (pos 0)
    then (err einval, p)
    else (
      ok tt,
      record p {
        range_begin_ns = range.begin_ns;
        range_end_ns = range.end_ns;
        loop = if range.loop == 0 then 0 else 1;
      },
    )

-- `~(VCAM_F_MIRROR | VCAM_F_AUTOPOSE)` on a `u32`.
abbrev pub unknown_flags : ℕ
unknown_flags = 2 ^ 32 - 1 - bit_or f_mirror f_autopose

unfoldable pub set_pose : Pool → Pose → Result (Unit {0}) × Pool
set_pose p pose =
    if has_flag pose.flags unknown_flags then (err einval, p) else (ok tt, record p { pose = pose })

unfoldable pub set_backend : Pool → ℕ → Result (Unit {0}) × Pool
set_backend p backend =
    if not (backend == backend_bridge) && not (backend == backend_pipeline)
    then (err einval, p)
    else (ok tt, record p { backend = backend })

unfoldable pub attach : Pool → Pool
attach p = record p { client_attached = 1 }

unfoldable pub get_stats : Pool → Stats
get_stats p = p.stats
