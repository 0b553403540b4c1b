-- ===== src/Pool/Consumer.antt =====
-- The consumer's half of src/vcam_pool.c: acquire, dequeue, release and peek.
use vcam_kmod.Base.{
  ℕ, zero, suc, ◌+◌, Bool, true, false, ◌&&◌, not, Option, none, some, List, ltb, ◌==◌,
  if◌then◌else◌, set,
}
use vcam_kmod.Base.Int.{eqb_ℤ, leb_ℤ}
use vcam_kmod.Uapi.{Dequeue}
use vcam_kmod.Kernel.{Kernel, Result, ok, err, eagain, esrch}
use vcam_kmod.Logic.Range.{deliver, wrap, drop, to_end, range_decide}
use vcam_kmod.Pool.State.{
  Pool, Slot, idle, held, is_filled, is_held, slot_at, inc64, reject_unknown,
}

-- `vcam_find_held`, from slot `i` with `rounds` slots left. The result is a slot's index.
unfoldable pub find_held : (rounds : ℕ) (i : ℕ) → List Slot → ℕ → Option ℕ
find_held zero i slots seq = none
find_held (suc rounds) i slots seq =
    let rest = find_held rounds (i + 1) slots seq in
    if is_held (slot_at slots i).state && (slot_at slots i).seq == seq then some i else rest

-- The body of the search for the oldest filled slot: `best` is the index found so far.
abbrev pub better : List Slot → ℕ → Option ℕ → Option ℕ
better slots i none = some i
better slots i (some j) = if ltb (slot_at slots i).seq (slot_at slots j).seq then some i else some j

unfoldable pub find_oldest : (rounds : ℕ) (i : ℕ) → List Slot → Option ℕ → Option ℕ
find_oldest zero i slots best = best
find_oldest (suc rounds) i slots best =
    find_oldest rounds (i + 1) slots
      (if is_filled (slot_at slots i).state then better slots i best else best)

unfoldable pub oldest : Pool → Option ℕ
unfolding find_oldest
oldest p = find_oldest p.nslots 0 p.slot none

-- What `vcam_pool_take` stores through its out pointers.
pub record Taken : Type 0 where
  pub seq : ℕ
  pub slot : ℕ
  pub ref : Option ℕ

-- A frame past the range, with looping off, is dropped.
abbrev pub dropped : Pool → ℕ → Pool
dropped p i = record p {
  slot = set p.slot i (record (slot_at p.slot i) { state = idle; seq = 0 });
  stats = record (p.stats) { dropped_late = inc64 p.stats.dropped_late };
}

-- The counting of wraps.
abbrev pub count_wrap : Pool → ℕ → Pool
count_wrap p i =
    if not (eqb_ℤ p.range_end_ns to_end)
      && leb_ℤ p.range_end_ns (slot_at p.slot i).timestamp_ns
      && not (p.loop == 0)
    then record p {
      wraps_due = inc64 p.wraps_due;
      stats = record (p.stats) { looped = inc64 p.stats.looped };
    }
    else p

-- The slot goes to the consumer.
abbrev pub hold : Pool → ℕ → Pool
hold p i = record p {
  slot = set p.slot i (record (slot_at p.slot i) { state = held });
  last_dequeued_seq = (slot_at p.slot i).seq;
  active_seq = (slot_at p.slot i).seq;
  stats = record (p.stats) { dequeued = inc64 p.stats.dequeued; bound = inc64 p.stats.bound };
}

-- The sequence number and the buffer that `vcam_pool_acquire` passes on.
abbrev pub acquire_out : Result Taken → Result (ℕ × Option ℕ)
acquire_out (ok t) = ok (t.seq, t.ref)
acquire_out (err e) = err e

-- What `vcam_pool_dequeue` fills in, from the pool that `vcam_pool_take` leaves.
abbrev pub dequeue_out : Pool → Result Taken → Result Dequeue
dequeue_out p (ok t) = ok (record {
  seq = t.seq;
  slot = t.slot;
  resolved_angle_deg = (slot_at p.slot t.slot).resolved_angle;
  resolved_mirror = (slot_at p.slot t.slot).resolved_mirror;
  reserved = 0;
})
dequeue_out p (err e) = err e

module _ (k : Kernel) where
  -- The end of `vcam_pool_take`, after `dma_buf_get` has answered.
  unfoldable pub take_got : Result ℕ × k.World → Pool → ℕ → Result Taken × Pool × k.World
  take_got (err e, w) p i = (err e, p, w)
  take_got (ok b, w) p i =
      (ok (record { seq = (slot_at p.slot i).seq; slot = i; ref = some b }), hold p i, w)

  -- From the counting of wraps on.
  unfoldable pub take_in_range :
      (take_ref : Bool) → Pool → ℕ → k.World → Result Taken × Pool × k.World
  unfolding take_got
  take_in_range true p i w = take_got (k.dma_buf_get (slot_at p.slot i).fd w) p i
  take_in_range false p i w =
      (ok (record { seq = (slot_at p.slot i).seq; slot = i; ref = none }), hold p i, w)

  unfoldable pub take_best :
      Option ℕ → (take_ref : Bool) → Pool → k.World → Result Taken × Pool × k.World
  unfolding take_in_range range_decide
  take_best none take_ref p w = (
    err eagain,
    record p { stats = record (p.stats) { dequeued_empty = inc64 p.stats.dequeued_empty } },
    w,
  )
  take_best (some i) take_ref p w =
      elim (range_decide p.range_end_ns p.loop (slot_at p.slot i).timestamp_ns) [
        | drop ↦ (err eagain, dropped p i, w)
        | deliver ↦ take_in_range take_ref (count_wrap p i) i w
        | wrap ↦ take_in_range take_ref (count_wrap p i) i w
      ]

  unfoldable pub take : (take_ref : Bool) → Pool → k.World → Result Taken × Pool × k.World
  unfolding take_best oldest
  take take_ref p w = take_best (oldest p) take_ref p w

  unfoldable pub acquire : Pool → k.World → Result (ℕ × Option ℕ) × Pool × k.World
  acquire p w = let (r, p', w') = take true p w in (acquire_out r, p', w')

  unfoldable pub dequeue : Pool → k.World → Result Dequeue × Pool × k.World
  dequeue p w = let (r, p', w') = take false p w in (dequeue_out p' r, p', w')

unfoldable pub release : Pool → ℕ → Result (Unit {0}) × Pool
unfolding find_held
release p seq = elim (find_held p.nslots 0 p.slot seq) [
  | none ↦ (err esrch, reject_unknown p)
  | some i ↦ (
    ok tt,
    record p {
      slot = set p.slot i (record (slot_at p.slot i) { state = idle });
      active_seq = 0;
      stats = record (p.stats) { released = inc64 p.stats.released };
    },
  )
]

-- The borrowed buffer and its sequence number.
unfoldable pub peek : Pool → Result (Option ℕ × ℕ)
unfolding oldest
peek p = elim (oldest p) [
  | none ↦ err eagain
  | some i ↦ ok ((slot_at p.slot i).dbuf, (slot_at p.slot i).seq)
]
