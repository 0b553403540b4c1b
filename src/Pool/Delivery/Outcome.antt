-- ===== src/Pool/Delivery/Outcome.antt =====
-- `vcam_pool_take` of src/vcam_pool.c: the slot that a frame is taken from.
use vcam_kmod.Base.{
  ℕ, ◌<◌, ◌≡◌, ◌≢◌, ◌⊎◌, refl, sym, ap, arith, Bool, true, false, Option, some, none, set,
}
use vcam_kmod.Base.Int.{ℤ}
use vcam_kmod.Kernel.{Kernel, Result, ok, err}
use vcam_kmod.Logic.Range.{Decision, deliver, wrap, drop, range_decide, to_end}
use vcam_kmod.Pool.State.{Pool, slot_at, held}
use vcam_kmod.Pool.Consumer.{
  take, take_best, take_in_range, take_got, oldest, hold, count_wrap, Taken,
}
use vcam_kmod.Pool.Change.Defs.{IsOldest}
use vcam_kmod.Pool.Change.Consumer.{oldest-IsOldest}

-- Without an end, or with looping, no frame is dropped.
pub range_decide-kept :
    (end_ns : ℤ) (loop : ℕ) (t : ℤ)
    → (end_ns ≡ to_end) ⊎ (0 < loop)
    → (range_decide end_ns loop t ≡ deliver) ⊎ (range_decide end_ns loop t ≡ wrap)
unfolding range_decide
range_decide-kept end_ns loop t h = ground arith

-- Slot `i` of `p` has been handed out, in `q`.
pub record IsHandedOut (p q : Pool) (i : ℕ) : Type 0 where
  pub oldest : IsOldest p i
  pub slot : q.slot ≡ set p.slot i (record (slot_at p.slot i) { state = held })
  pub in_range : range_decide p.range_end_ns p.loop (slot_at p.slot i).timestamp_ns ≢ drop
  pub active : q.active_seq ≡ (slot_at p.slot i).seq
  pub last : q.last_dequeued_seq ≡ (slot_at p.slot i).seq

module _ (k : Kernel) (p : Pool) (w : k.World) where
  hold-IsHandedOut :
      (q : Pool) (i : ℕ)
      → q.slot ≡ p.slot
      → IsOldest p i
      → range_decide p.range_end_ns p.loop (slot_at p.slot i).timestamp_ns ≢ drop
      → IsHandedOut p (hold q i) i
  hold-IsHandedOut q i e h r = record {
    oldest = h;
    slot = ap (λ t. set t i (record (slot_at t i) { state = held })) e;
    in_range = r;
    active = ap (λ t. (slot_at t i).seq) e;
    last = ap (λ t. (slot_at t i).seq) e;
  }

  -- The frame taken, and the state of the machine after.
  abbrev pub TakenFrom : Bool → Result Taken × Pool × k.World → Type 0
  TakenFrom take_ref (err e, q, w') = Unit {0}
  TakenFrom true (ok t, q, w') =
      IsHandedOut p q t.slot
      × (t.seq ≡ (slot_at p.slot t.slot).seq)
      × ((b : ℕ) × (t.ref ≡ some b) × (k.dma_buf_get (slot_at p.slot t.slot).fd w ≡ (ok b, w')))
  TakenFrom false (ok t, q, w') =
      IsHandedOut p q t.slot × (t.seq ≡ (slot_at p.slot t.slot).seq) × (t.ref ≡ none) × (w' ≡ w)

  module _ (q : Pool) (i : ℕ) (same : q.slot ≡ p.slot) (h : IsOldest p i)
      (r : range_decide p.range_end_ns p.loop (slot_at p.slot i).timestamp_ns ≢ drop) where
    take_got-TakenFrom :
        (o : Result ℕ × k.World)
        → k.dma_buf_get (slot_at p.slot i).fd w ≡ o
        → TakenFrom true (take_got k o q i)
    unfolding take_got
    take_got-TakenFrom (err e, w') g = tt
    take_got-TakenFrom (ok b, w') g =
        (hold-IsHandedOut q i same h r, ap (λ t. (slot_at t i).seq) same, (b, refl, g))

    take_in_range-TakenFrom :
        (take_ref : Bool) → TakenFrom take_ref (take_in_range k take_ref q i w)
    unfolding take_in_range
    take_in_range-TakenFrom true =
        take_got-TakenFrom (k.dma_buf_get (slot_at q.slot i).fd w)
          (ap (λ t. k.dma_buf_get (slot_at t i).fd w) (sym same))
    take_in_range-TakenFrom false =
        (hold-IsHandedOut q i same h r, ap (λ t. (slot_at t i).seq) same, refl, refl)

  take_best-TakenFrom :
      (o : Option ℕ) (take_ref : Bool)
      → oldest p ≡ o
      → TakenFrom take_ref (take_best k o take_ref p w)
  unfolding take_best
  take_best-TakenFrom none take_ref e = tt
  take_best-TakenFrom (some i) take_ref e = by_decision _ refl
    where
      count_wrap-slot : (count_wrap p i).slot ≡ p.slot
      count_wrap-slot = ground arith

      by_decision :
          (d : Decision)
          → range_decide p.range_end_ns p.loop (slot_at p.slot i).timestamp_ns ≡ d
          → TakenFrom take_ref (take_best k (some i) take_ref p w)
      by_decision drop r = rw (r, take_best) tt
      by_decision deliver r =
          rw (r, take_best)
            (take_in_range-TakenFrom (count_wrap p i) i count_wrap-slot (oldest-IsOldest p i e)
              (λ z. cc) take_ref)
      by_decision wrap r =
          rw (r, take_best)
            (take_in_range-TakenFrom (count_wrap p i) i count_wrap-slot (oldest-IsOldest p i e)
              (λ z. cc) take_ref)

  pub take-TakenFrom : (take_ref : Bool) → TakenFrom take_ref (take k take_ref p w)
  unfolding take
  take-TakenFrom take_ref = take_best-TakenFrom (oldest p) take_ref refl
