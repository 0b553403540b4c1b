-- ===== src/Pool/Invariant/Write.antt =====
-- The slot part of the invariant under a write of one slot.
use vcam_kmod.Base.{
  ℕ, ◌≤◌, ◌<◌, ◌≡◌, ◌≢◌, true, List, arith, ◌==◌, if◌then◌else◌, set, get_or-set, length-set,
  ℕ_discrete, ==_iff,
}
use vcam_kmod.Pool.State.{Slot, slot_at, zero_slot}
use vcam_kmod.Pool.Invariant.Defs.{is_live, IsSlot, IsSlots}

module _ {slots : List Slot} {n ls ld : ℕ} (v : IsSlots slots n ls ld) (i : ℕ) (h : i < n)
    (s : Slot) where
  -- A read after the write.
  pub slot_at-set : (j : ℕ) → slot_at (set slots i s) j ≡ (if i == j then s else slot_at slots j)
  slot_at-set j = get_or-set slots i j s zero_slot (omega (arith, v.size, v.count))

  -- The new slot is sound, the others still are, and its number is not in use.
  pub write-IsSlots :
      {ls' ld' : ℕ}
      → ld' ≤ ls'
      → IsSlot ls' ld' s
      → ((j : ℕ) → i ≢ j → IsSlot ls' ld' (slot_at slots j))
      → ((j : ℕ)
          → i ≢ j
          → is_live s.state ≡ true
          → is_live (slot_at slots j).state ≡ true
          → (slot_at slots j).seq ≢ s.seq)
      → IsSlots (set slots i s) n ls' ld'
  write-IsSlots {ls'} {ld'} order here others fresh = record {
    size = omega (arith, length-set slots i s, v.size);
    count = v.count;
    each = λ j. elim (ℕ_discrete i j) [
      | yes e ↦ rw (slot_at-set j, (==_iff i j).1 e) here
      | no ne ↦ ground (arith, slot_at-set j, others j ne)
    ];
    spare = λ j m. ground (arith, slot_at-set j, v.spare j);
    unique = λ a b. ground (arith, slot_at-set a, slot_at-set b, v.unique a b, fresh a, fresh b);
    order = order;
  }
