-- ===== src/Pool/Refs/Held.antt =====
-- The references that the pool holds: one for each slot with a buffer.
use vcam_kmod.Base.{
  ℕ, zero, suc, ◌+◌, ◌≤◌, ◌<◌, ◌≡◌, refl, arith, Option, none, some, List, [], ◌∷◌, set, length,
}
use vcam_kmod.Kernel.{one_at}
use vcam_kmod.Pool.State.{Slot, slot_at}

-- One reference to `b` if the slot's buffer is `b`.
abbrev pub slot_refs : ℕ → Option ℕ → ℕ
slot_refs b none = 0
slot_refs b (some c) = one_at c b

unfoldable pub held_refs : ℕ → List Slot → ℕ
held_refs b [] = 0
held_refs b (s ∷ ss) = slot_refs b s.dbuf + held_refs b ss

pub held_refs-set :
    (b : ℕ) (slots : List Slot) (i : ℕ) (s : Slot)
    → i < length slots
    → held_refs b (set slots i s) + slot_refs b (slot_at slots i).dbuf
      ≡ held_refs b slots + slot_refs b s.dbuf
unfolding held_refs
held_refs-set b [] i s h = absurd (omega arith)
held_refs-set b (x ∷ xs) zero s h = omega arith
held_refs-set b (x ∷ xs) (suc i) s h = omega (arith, held_refs-set b xs i s (omega arith))

-- A slot's own reference is among them.
pub slot_refs-le :
    (b : ℕ) (slots : List Slot) (i : ℕ) → slot_refs b (slot_at slots i).dbuf ≤ held_refs b slots
unfolding held_refs
slot_refs-le b [] i = omega arith
slot_refs-le b (x ∷ xs) zero = omega arith
slot_refs-le b (x ∷ xs) (suc i) = omega (arith, slot_refs-le b xs i)

-- A write that keeps the buffer keeps the references.
pub held_refs-set_same :
    (b : ℕ) (slots : List Slot) (i : ℕ) (s : Slot)
    → s.dbuf ≡ (slot_at slots i).dbuf
    → held_refs b (set slots i s) ≡ held_refs b slots
unfolding held_refs
held_refs-set_same b [] i s e = refl
held_refs-set_same b (x ∷ xs) zero s e = rw e
held_refs-set_same b (x ∷ xs) (suc i) s e = rw (held_refs-set_same b xs i s e)
