-- ===== src/Pool/Change/Reads.antt =====
-- What a change leaves at each slot.
use vcam_kmod.Base.{ℕ, ◌≡◌, ◌≢◌, arith}
use vcam_kmod.Pool.State.{Pool, Slot, slot_at}
use vcam_kmod.Pool.Invariant.Write.{slot_at-set}
use vcam_kmod.Pool.Change.Defs.{Writes}
use vcam_kmod.Pool.Change.Keeps.{PoolSlots}

module _ {p q : Pool} (v : PoolSlots p) {i : ℕ} {s : Slot} (w : Writes p q i s) where
  pub Writes-here : slot_at q.slot i ≡ s
  Writes-here = rw w.slot (ground (arith, slot_at-set v i w.in_range s i))

  pub Writes-other : (j : ℕ) → i ≢ j → slot_at q.slot j ≡ slot_at p.slot j
  Writes-other j other = rw w.slot (ground (arith, slot_at-set v i w.in_range s j))
