-- ===== src/Pool/Peeked.antt =====
-- `vcam_pool_peek` of src/vcam_pool.c beside `vcam_pool_dequeue`.
use vcam_kmod.Base.{ℕ, ◌<◌, ◌≡◌, ◌⊎◌, inl, inr, refl, arith, some, Option-cases}
use vcam_kmod.Kernel.{Kernel, ok, err, eagain}
use vcam_kmod.Uapi.{Dequeue}
use vcam_kmod.Logic.Range.{to_end}
use vcam_kmod.Pool.State.{Pool, slot_at}
use vcam_kmod.Pool.Consumer.{peek, dequeue, take, take_best, take_in_range, oldest, count_wrap}
use vcam_kmod.Pool.Delivery.{range_decide-kept}

module _ (k : Kernel) (p : Pool) (w : k.World) where
  shown :
      (i : ℕ)
      → oldest p ≡ some i
      → peek p ≡ ok ((slot_at p.slot i).dbuf, (slot_at (count_wrap p i).slot i).seq)
  unfolding peek
  shown i e = let same : (count_wrap p i).slot ≡ p.slot = ground arith in rw (peek, e, same) refl

  -- Peek and dequeue agree, where the range has no end or looping is on: both find nothing, or peek
  -- shows the number and the buffer of the slot whose frame the dequeue delivers.
  pub peek-dequeue :
      (p.range_end_ns ≡ to_end) ⊎ (0 < p.loop)
      → ((peek p ≡ err eagain) × ((dequeue k p w).0 ≡ err eagain))
        ⊎ ((d : Dequeue) × ((dequeue k p w).0 ≡ ok d)
            × (peek p ≡ ok ((slot_at p.slot d.slot).dbuf, d.seq)))
  unfolding peek dequeue take take_best take_in_range
  peek-dequeue open_end = elim (Option-cases (oldest p)) [
    | inl e ↦ rw (peek, e, take_best) (inl (refl, refl))
    | inr (i, e) ↦
        elim (range_decide-kept p.range_end_ns p.loop (slot_at p.slot i).timestamp_ns open_end) [
          | inl r ↦ rw (e, take_best, r) (inr (_, refl, shown i e))
          | inr r ↦ rw (e, take_best, r) (inr (_, refl, shown i e))
        ]
  ]
