-- ===== src/Pool/Producer.antt =====
-- The producer's half of src/vcam_pool.c: register, unregister, submit, and the teardown.
use vcam_kmod.Base.{ℕ, zero, suc, ◌+◌, ◌||◌, not, Option, none, some, List, leb, if◌then◌else◌, set}
use vcam_kmod.Base.Int.{ℤ, pos, negsuc, ltb_ℤ}
use vcam_kmod.Uapi.{Format}
use vcam_kmod.Kernel.{Kernel, Result, ok, err, einval, ebusy, enoent}
use vcam_kmod.Logic.Pose.{pose_apply}
use vcam_kmod.Logic.Format.{format_validate, format_reportable}
use vcam_kmod.Pool.State.{
  Pool, Slot, unbound, idle, filled, is_unbound, is_idle, is_filled, is_held, slot_at, inc64,
  reject_unknown, reject_busy,
}

-- The search for a free slot, from slot `i` with `rounds` slots left.
unfoldable pub find_unbound : (rounds : ℕ) (i : ℕ) → List Slot → Option ℕ
find_unbound zero i slots = none
find_unbound (suc rounds) i slots =
    let rest = find_unbound rounds (i + 1) slots in
    if is_unbound (slot_at slots i).state then some i else rest

-- The slot that `vcam_pool_register` fills in.
abbrev pub registered : Slot → ℕ → ℤ → Format → Slot
registered s b fd fmt = record s {
  dbuf = some b;
  fd = fd;
  seq = 0;
  timestamp_ns = pos 0;
  state = idle;
  fmt = fmt;
}

abbrev pub bind_slot : Pool → ℕ → ℕ → ℤ → Format → Pool
bind_slot p i b fd fmt = record p {
  slot = set p.slot i (registered (slot_at p.slot i) b fd fmt);
  reported_w = fmt.width;
  reported_h = fmt.height;
  reported_format = if format_reportable fmt.fourcc then fmt.fourcc else p.reported_format;
}

-- The slot that `vcam_pool_unregister` clears.
abbrev pub unregistered : Slot → Slot
unregistered s = record s { dbuf = none; fd = negsuc 0; seq = 0; state = unbound }

-- The slot that the teardown clears.
abbrev pub torn_down : Slot → Slot
torn_down s = record s { dbuf = none; state = unbound; fd = negsuc 0 }

module _ (k : Kernel) where
  -- `dma_buf_put` on a pointer that may be NULL, which the code tests before, or which is never
  -- NULL there.
  unfoldable pub put_if : Option ℕ → k.World → k.World
  put_if none w = w
  put_if (some b) w = k.dma_buf_put b w

  unfoldable pub register_free :
      Option ℕ → Pool → ℕ → ℤ → Format → k.World → Result ℕ × Pool × k.World
  register_free none p b fd fmt w = (err ebusy, p, k.dma_buf_put b w)
  register_free (some i) p b fd fmt w = (ok i, bind_slot p i b fd fmt, w)

  unfoldable pub register_got : Result ℕ × k.World → Pool → ℤ → Format → Result ℕ × Pool × k.World
  unfolding register_free find_unbound
  register_got (err e, w) p fd fmt = (err e, p, w)
  register_got (ok b, w) p fd fmt = register_free (find_unbound p.nslots 0 p.slot) p b fd fmt w

  unfoldable pub register : Pool → ℤ → Format → k.World → Result ℕ × Pool × k.World
  unfolding register_got
  register p fd fmt w =
      if ltb_ℤ fd (pos 0) then (err einval, p, w) else elim (format_validate fmt) [
        | ok _ ↦ register_got (k.dma_buf_get fd w) p fd fmt
        | err e ↦ (err e, p, w)
      ]

  unfoldable pub unregister : Pool → ℕ → k.World → Result (Unit {0}) × Pool × k.World
  unfolding put_if
  unregister p slot w =
      let s = slot_at p.slot slot in
      if leb p.nslots slot
      then (err enoent, reject_unknown p, w)
      else if is_filled s.state || is_held s.state
      then (err ebusy, reject_busy p, w)
      else if is_unbound s.state
      then (err einval, p, w)
      else (ok tt, record p { slot = set p.slot slot (unregistered s) }, put_if s.dbuf w)

  -- The teardown loop, from slot `i` with `rounds` slots left.
  unfoldable pub tear_down : (rounds : ℕ) (i : ℕ) → List Slot → k.World → List Slot × k.World
  unfolding put_if
  tear_down zero i slots w = (slots, w)
  tear_down (suc rounds) i slots w =
      let s = slot_at slots i in
      tear_down rounds (i + 1) (set slots i (torn_down s)) (put_if s.dbuf w)

  unfoldable pub destroy : Pool → k.World → Pool × k.World
  unfolding tear_down
  destroy p w = let (slots, w') = tear_down p.nslots 0 p.slot w in (record p { slot = slots }, w')

-- The slot that `vcam_pool_submit` fills, with the pose of the pool resolved.
abbrev pub submitted : Pool → Slot → ℕ → ℤ → ℕ → ℕ → Slot
submitted p s seq timestamp_ns rotation_deg flags = record s {
  seq = seq;
  timestamp_ns = timestamp_ns;
  rotation_deg = rotation_deg;
  flags = flags;
  resolved_angle = (pose_apply p.pose).angle_deg;
  resolved_mirror = (pose_apply p.pose).mirror;
  state = filled;
}

unfoldable pub submit :
    Pool → (slot seq : ℕ) (timestamp_ns : ℤ) (rotation_deg flags : ℕ) → Result (Unit {0}) × Pool
submit p slot seq timestamp_ns rotation_deg flags =
    let s = slot_at p.slot slot in
    if leb p.nslots slot || is_unbound s.state
    then (err enoent, reject_unknown p)
    else if not (is_idle s.state)
    then (err ebusy, reject_busy p)
    else if leb seq p.last_submitted_seq
    then (err einval, reject_unknown p)
    else (
      ok tt,
      record p {
        slot = set p.slot slot (submitted p s seq timestamp_ns rotation_deg flags);
        last_submitted_seq = seq;
        stats = record (p.stats) { submitted = inc64 p.stats.submitted };
      },
    )
