-- ===== src/Pool/Delivery.antt =====
-- What `vcam_pool_dequeue` and `vcam_pool_acquire` of src/vcam_pool.c hand out.
pub mod Outcome
pub use vcam_kmod.Pool.Delivery.Outcome.{range_decide-kept, IsHandedOut}
use vcam_kmod.Pool.Delivery.Outcome.{TakenFrom, take-TakenFrom}
use vcam_kmod.Base.{
  ℕ, ◌<◌, ◌≡◌, ◌≢◌, ◌⊎◌, inl, inr, refl, sym, ap, ◌∙◌, arith, Bool, true, false, Option, some, none,
  set, subst, Option-cases,
}
use vcam_kmod.Base.Int.{ℤ}
use vcam_kmod.Uapi.{Dequeue}
use vcam_kmod.Kernel.{Kernel, Result, ok, err}
use vcam_kmod.Logic.Range.{Decision, deliver, wrap, drop, range_decide, to_end}
use vcam_kmod.Pool.State.{Pool, slot_at, filled, held}
use vcam_kmod.Pool.Consumer.{
  dequeue, dequeue_out, acquire, acquire_out, take, take_best, take_in_range, take_got, oldest,
  hold, count_wrap, Taken,
}
use vcam_kmod.Pool.Invariant.Find.{Best, oldest-Best}
use vcam_kmod.Pool.Invariant.Write.{slot_at-set}
use vcam_kmod.Pool.Change.Keeps.{PoolSlots}
use vcam_kmod.Pool.Change.Defs.{IsOldest}
use vcam_kmod.Pool.Change.Consumer.{oldest-IsOldest}

module _ (k : Kernel) (p : Pool) (w : k.World) where
  -- What `vcam_pool_dequeue` reads from the slot after.
  dequeue_out-ok :
      (o : Result Taken × Pool × k.World) {d : Dequeue}
      → PoolSlots p
      → TakenFrom k p w false o
      → dequeue_out o.1 o.0 ≡ ok d
      → IsHandedOut p o.1 d.slot
        × (d.seq ≡ (slot_at p.slot d.slot).seq)
        × (d.resolved_angle_deg ≡ (slot_at p.slot d.slot).resolved_angle)
        × (d.resolved_mirror ≡ (slot_at p.slot d.slot).resolved_mirror)
        × (o.2 ≡ w)
  dequeue_out-ok (err e, q, w') v h eq = cc
  dequeue_out-ok (ok t, q, w') {d} v (h, n, _, u) eq =
      let made = ap (dequeued d) eq in
      subst
        (λ d.
          IsHandedOut p q d.slot
          × (d.seq ≡ (slot_at p.slot d.slot).seq)
          × (d.resolved_angle_deg ≡ (slot_at p.slot d.slot).resolved_angle)
          × (d.resolved_mirror ≡ (slot_at p.slot d.slot).resolved_mirror)
          × (w' ≡ w))
        made
        (
          h,
          n,
          ground (
            arith,
            h.slot,
            slot_at-set v t.slot h.oldest.in_range (record (slot_at p.slot t.slot) { state = held })
                t.slot,
          ),
          ground (
            arith,
            h.slot,
            slot_at-set v t.slot h.oldest.in_range (record (slot_at p.slot t.slot) { state = held })
                t.slot,
          ),
          u,
        )
    where
      dequeued : Dequeue → Result Dequeue → Dequeue
      dequeued d (ok e) = e
      dequeued d (err _) = d

  -- A frame that `vcam_pool_dequeue` delivers from a pool with sound slots is the oldest one
  -- waiting, and the range rule does not drop it; its slot becomes held and nothing else of the
  -- slots changes, it becomes the active and the last dequeued frame; the reply has its number and
  -- its pose, and the machine is left alone.
  pub dequeue-ok :
      {d : Dequeue}
      → PoolSlots p
      → (dequeue k p w).0 ≡ ok d
      → IsHandedOut p (dequeue k p w).1 d.slot
        × (d.seq ≡ (slot_at p.slot d.slot).seq)
        × (d.resolved_angle_deg ≡ (slot_at p.slot d.slot).resolved_angle)
        × (d.resolved_mirror ≡ (slot_at p.slot d.slot).resolved_mirror)
        × ((dequeue k p w).2 ≡ w)
  unfolding dequeue
  dequeue-ok v e = dequeue_out-ok (take k false p w) v (take-TakenFrom k p w false) e

  abbrev Acquired : Result Taken × Pool × k.World → ℕ → Option ℕ → Type 0
  Acquired o n ref =
      (i : ℕ) × IsHandedOut p o.1 i
      × (n ≡ (slot_at p.slot i).seq)
      × ((b : ℕ) × (ref ≡ some b) × (k.dma_buf_get (slot_at p.slot i).fd w ≡ (ok b, o.2)))

  acquire_out-ok :
      (o : Result Taken × Pool × k.World) {n : ℕ} {ref : Option ℕ}
      → TakenFrom k p w true o
      → acquire_out o.0 ≡ ok (n, ref)
      → Acquired o n ref
  acquire_out-ok (err e, q, w') h eq = cc
  acquire_out-ok (ok t, q, w') {n} {ref} (h, m, (b, r, g)) eq =
      let pair = ap (out (n, ref)) eq in
      (t.slot, h, sym (ap (λ a. a.0) pair) ∙ m, (b, sym (ap (λ a. a.1) pair) ∙ r, g))
    where
      out : ℕ × Option ℕ → Result (ℕ × Option ℕ) → ℕ × Option ℕ
      out d (ok e) = e
      out d (err _) = d

  -- A frame that `vcam_pool_acquire` delivers is the oldest one waiting, and the range rule does not drop it; its
  -- slot becomes held and nothing else of the slots changes, it becomes the active and the last
  -- dequeued frame; the reply has its number and the buffer that `dma_buf_get` finds behind the
  -- slot's descriptor at that moment.
  pub acquire-ok :
      {n : ℕ} {ref : Option ℕ}
      → (acquire k p w).0 ≡ ok (n, ref)
      → (i : ℕ) × IsHandedOut p (acquire k p w).1 i
        × (n ≡ (slot_at p.slot i).seq)
        × ((b : ℕ) × (ref ≡ some b)
            × (k.dma_buf_get (slot_at p.slot i).fd w ≡ (ok b, (acquire k p w).2)))
  unfolding acquire
  acquire-ok e = acquire_out-ok (take k true p w) (take-TakenFrom k p w true) e

  -- If a frame waits in one of the pool's slots, and the range has no end or looping is on, a
  -- dequeue delivers a frame.
  pub dequeue-delivers :
      (j : ℕ)
      → j < p.nslots
      → (slot_at p.slot j).state ≡ filled
      → (p.range_end_ns ≡ to_end) ⊎ (0 < p.loop)
      → (d : Dequeue) × ((dequeue k p w).0 ≡ ok d)
  unfolding dequeue take take_best take_in_range
  dequeue-delivers j h f open_end = elim (Option-cases (oldest p)) [
    | inl e ↦
        let empty : Best p.slot p.nslots none = subst (Best p.slot p.nslots) e (oldest-Best p) in
        absurd (ground (arith, f, empty j h))
    | inr (i, e) ↦
        elim (range_decide-kept p.range_end_ns p.loop (slot_at p.slot i).timestamp_ns open_end) [
          | inl r ↦ rw (e, take_best, r) (_, refl)
          | inr r ↦ rw (e, take_best, r) (_, refl)
        ]
  ]
