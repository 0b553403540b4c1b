-- ===== src/Pool/Conserved/Defs.antt =====
-- The counters of src/vcam_pool.c against the slots.
use vcam_kmod.Base.{ℕ, ◌+◌, ◌%◌, ◌^◌, ◌<◌, ◌≡◌, arith, length, set}
use vcam_kmod.Pool.State.{Pool, Slot, slot_at, is_filled, is_held}
use vcam_kmod.Pool.Change.Keeps.{PoolSlots}
use vcam_kmod.Pool.Conserved.Counts.{
  one_if, filled_count, held_count, filled_count-set, held_count-set,
}

-- Every frame that came in has been taken or dropped, or waits; every frame that was taken has been
-- given back, or is held.
pub record IsConserved (p : Pool) : Type 0 where
  pub came :
      p.stats.submitted ≡ (p.stats.dequeued + p.stats.dropped_late + filled_count p.slot) % 2 ^ 64
  pub taken : p.stats.dequeued ≡ (p.stats.released + held_count p.slot) % 2 ^ 64
  pub bound : p.stats.bound ≡ p.stats.dequeued
  pub wraps : p.wraps_due ≡ p.stats.looped

module _ (p : Pool) (v : PoolSlots p) where
  -- The counts after a write of slot `i`.
  pub counts :
      (i : ℕ) (s : Slot)
      → i < p.nslots
      → (filled_count (set p.slot i s) + one_if (is_filled (slot_at p.slot i).state)
          ≡ filled_count p.slot + one_if (is_filled s.state))
        × (held_count (set p.slot i s) + one_if (is_held (slot_at p.slot i).state)
            ≡ held_count p.slot + one_if (is_held s.state))
  counts i s h =
      let below : i < length p.slot = omega (arith, h, v.size, v.count) in
      (filled_count-set p.slot i s below, held_count-set p.slot i s below)
