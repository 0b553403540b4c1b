-- ===== src/Pool/Conserved/Counts.antt =====
-- How many slots of src/vcam_pool.c are in a state.
use vcam_kmod.Base.{
  ℕ, zero, suc, ◌+◌, ◌<◌, ◌≡◌, arith, Bool, true, false, List, [], ◌∷◌, set, length,
}
use vcam_kmod.Pool.State.{Slot, slot_at, is_filled, is_held}

abbrev pub one_if : Bool → ℕ
one_if true = 1
one_if false = 0

unfoldable pub filled_count : List Slot → ℕ
filled_count [] = 0
filled_count (s ∷ ss) = one_if (is_filled s.state) + filled_count ss

unfoldable pub held_count : List Slot → ℕ
held_count [] = 0
held_count (s ∷ ss) = one_if (is_held s.state) + held_count ss

pub filled_count-set :
    (slots : List Slot) (i : ℕ) (s : Slot)
    → i < length slots
    → filled_count (set slots i s) + one_if (is_filled (slot_at slots i).state)
      ≡ filled_count slots + one_if (is_filled s.state)
unfolding filled_count
filled_count-set [] i s h = absurd (omega arith)
filled_count-set (x ∷ xs) zero s h = omega arith
filled_count-set (x ∷ xs) (suc i) s h = omega (arith, filled_count-set xs i s (omega arith))

pub held_count-set :
    (slots : List Slot) (i : ℕ) (s : Slot)
    → i < length slots
    → held_count (set slots i s) + one_if (is_held (slot_at slots i).state)
      ≡ held_count slots + one_if (is_held s.state)
unfolding held_count
held_count-set [] i s h = absurd (omega arith)
held_count-set (x ∷ xs) zero s h = omega arith
held_count-set (x ∷ xs) (suc i) s h = omega (arith, held_count-set xs i s (omega arith))
