-- ===== src/Pool/Refs/Destroy.antt =====
-- The references that `vcam_pool_destroy` of src/vcam_pool.c gives back.
use native.Mathlib.Nat.{le_trans}
use vcam_kmod.Base.{
  ℕ, zero, suc, ◌+◌, ◌≤◌, ◌<◌, ◌≡◌, refl, arith, Option, none, some, List, length, set, length-set,
  get_or-set, dec_lt, [], ◌∷◌,
}
use vcam_kmod.Kernel.{Kernel, CountsRefs}
use vcam_kmod.Pool.State.{Pool, Slot, slot_at, zero_slot}
use vcam_kmod.Pool.Producer.{tear_down, destroy, put_if, torn_down}
use vcam_kmod.Pool.Invariant.Defs.{IsValid}
use vcam_kmod.Pool.Refs.Held.{slot_refs, held_refs, held_refs-set, slot_refs-le}

module _ (k : Kernel) {limit : ℕ} (laws : CountsRefs k limit) where
  put_if-refs :
      (o : Option ℕ) (w : k.World) (b : ℕ)
      → ((c : ℕ) → slot_refs c o ≤ k.refs c w)
      → k.refs b (put_if k o w) + slot_refs b o ≡ k.refs b w
  unfolding put_if
  put_if-refs none w b h = omega arith
  put_if-refs (some c) w b h = ground (arith, h c, laws.put c w b)

  -- The loop gives back what the slots that it passes hold, and no more.
  record Torn (n i : ℕ) (slots : List Slot) (w : k.World) (slots' : List Slot) (w' : k.World)
      : Type 0 where
    balance : (b : ℕ) → k.refs b w' + held_refs b slots ≡ k.refs b w + held_refs b slots'
    size : length slots' ≡ length slots
    cleared : (j : ℕ) → i ≤ j → j < i + n → (slot_at slots' j).dbuf ≡ none
    before : (j : ℕ) → j < i → slot_at slots' j ≡ slot_at slots j
    beyond : (j : ℕ) → i + n ≤ j → slot_at slots' j ≡ slot_at slots j

  tear_down-Torn :
      (n i : ℕ) (slots : List Slot) (w : k.World)
      → i + n ≤ length slots
      → ((c : ℕ) → held_refs c slots ≤ k.refs c w)
      → Torn n i slots w (tear_down k n i slots w).0 (tear_down k n i slots w).1
  unfolding tear_down
  tear_down-Torn zero i slots w h real = record {
    balance = λ b. refl;
    size = refl;
    cleared = λ j p q. absurd (omega arith);
    before = λ j _. refl;
    beyond = λ j _. refl;
  }
  tear_down-Torn (suc n) i slots w h real =
      let s = slot_at slots i in
      let slots1 = set slots i (torn_down s) in
      let w1 = put_if k s.dbuf w in
      let put =
        λ (b : ℕ). put_if-refs s.dbuf w b (λ c. le_trans (slot_refs-le c slots i) (real c)) in
      let wrote = λ (b : ℕ). held_refs-set b slots i (torn_down s) (omega arith) in
      let read = λ (j : ℕ). get_or-set slots i j (torn_down s) zero_slot (omega arith) in
      let rest =
        tear_down-Torn n (i + 1) slots1 w1 (omega (arith, length-set slots i (torn_down s)))
          (λ c. omega (arith, put c, wrote c, real c)) in
      record {
        balance = λ b. omega (arith, put b, wrote b, rest.balance b);
        size = omega (arith, rest.size, length-set slots i (torn_down s));
        cleared = λ j p q. ground (arith, read j, rest.before j, rest.cleared j);
        before = λ j p. ground (arith, read j, rest.before j);
        beyond = λ j p. ground (arith, read j, rest.beyond j);
      }

  -- No slot holds a buffer: no reference is counted.
  held_refs-none :
      (b : ℕ) (slots : List Slot)
      → ((j : ℕ) → (slot_at slots j).dbuf ≡ none)
      → held_refs b slots ≡ 0
  unfolding held_refs
  held_refs-none b [] h = refl
  held_refs-none b (s ∷ ss) h =
      let rest = held_refs-none b ss (λ j. h (suc j)) in rw (h 0) (omega (arith, rest))

  -- The teardown of a valid pool whose references are real gives back exactly the references that
  -- its slots hold, and leaves no buffer in a slot.
  pub destroy-refs :
      (p : Pool) (w : k.World)
      → IsValid p
      → ((b : ℕ) → held_refs b p.slot ≤ k.refs b w)
      → (b : ℕ)
      → let (q, w') = destroy k p w in
        (k.refs b w' + held_refs b p.slot ≡ k.refs b w) × (held_refs b q.slot ≡ 0)
  unfolding destroy
  destroy-refs p w v real b =
      let t = tear_down-Torn p.nslots 0 p.slot w (omega (arith, v.pool.size, v.pool.count)) real in
      let none_left : held_refs b (tear_down k p.nslots 0 p.slot w).0 ≡ 0 = held_refs-none b _ (λ j.
        elim (dec_lt j p.nslots) [
          | yes l ↦ t.cleared j (omega arith) (omega arith)
          | no g ↦ ground (arith, t.beyond j, v.pool.spare j, v.pool.each j)
        ]) in
      (omega (arith, t.balance b, none_left), none_left)
