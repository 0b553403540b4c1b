-- ===== src/Pool/Invariant/Find.antt =====
-- What the three searches over the slots return.
use vcam_kmod.Base.{
  ℕ, zero, suc, ◌+◌, ◌≤◌, ◌<◌, ◌≡◌, inl, inr, true, false, Option, none, some, List, arith,
  Bool-cases, subst, ltb, if◌then◌else◌,
}
use vcam_kmod.Pool.State.{Pool, Slot, is_unbound, is_filled, is_held, slot_at}
use vcam_kmod.Pool.Producer.{find_unbound}
use vcam_kmod.Pool.Consumer.{find_held, find_oldest, better, oldest}

-- `find_unbound` returns the first free slot.
pub find_unbound-some :
    (n i : ℕ) (slots : List Slot) (k : ℕ)
    → find_unbound n i slots ≡ some k
    → (i ≤ k) × (k < i + n) × (is_unbound (slot_at slots k).state ≡ true)
unfolding find_unbound
find_unbound-some zero i slots k e = absurd (cc)
find_unbound-some (suc n) i slots k e = ground (arith, find_unbound-some n (i + 1) slots k)

pub find_unbound-none :
    (n i : ℕ) (slots : List Slot)
    → find_unbound n i slots ≡ none
    → (j : ℕ) → i ≤ j
    → j < i + n
    → is_unbound (slot_at slots j).state ≡ false
unfolding find_unbound
find_unbound-none zero i slots e j h k = absurd (omega arith)
find_unbound-none (suc n) i slots e j h k =
    ground
      (arith, λ (r : find_unbound n (i + 1) slots ≡ none). find_unbound-none n (i + 1) slots r j)

pub find_held-some :
    (n i : ℕ) (slots : List Slot) (q k : ℕ)
    → find_held n i slots q ≡ some k
    → (i ≤ k) × (k < i + n) × (is_held (slot_at slots k).state ≡ true) × ((slot_at slots k).seq ≡ q)
unfolding find_held
find_held-some zero i slots q k e = absurd (cc)
find_held-some (suc n) i slots q k e = ground (arith, find_held-some n (i + 1) slots q k)

-- `j` is a filled slot and no filled slot up to `i` is older; or there is none.
abbrev pub Best : List Slot → ℕ → Option ℕ → Type 0
Best slots i none = (j : ℕ) → j < i → is_filled (slot_at slots j).state ≡ false
Best slots i (some b) =
    (b < i)
    × (is_filled (slot_at slots b).state ≡ true)
    × ((j : ℕ)
        → j < i
        → is_filled (slot_at slots j).state ≡ true
        → (slot_at slots b).seq ≤ (slot_at slots j).seq)

Best-step :
    (slots : List Slot) (i : ℕ) (best : Option ℕ)
    → Best slots i best
    → Best slots (i + 1) (if is_filled (slot_at slots i).state then better slots i best else best)
Best-step slots i none h = elim (Bool-cases (is_filled (slot_at slots i).state)) [
  | inl f ↦ rw f (omega arith, f, λ j p g. ground (arith, h j))
  | inr f ↦ rw f (λ j p. ground (arith, h j))
]
Best-step slots i (some b) h = elim (Bool-cases (is_filled (slot_at slots i).state)) [
  | inr f ↦ rw f (omega arith, h.1, λ j p g. ground (arith, h.2 j))
  | inl f ↦ elim (Bool-cases (ltb (slot_at slots i).seq (slot_at slots b).seq)) [
    | inl less ↦ rw (f, less) (omega arith, f, λ j p g. ground (arith, h.2 j))
    | inr more ↦ rw (f, more) (omega arith, h.1, λ j p g. ground (arith, h.2 j))
  ]
]

find_oldest-Best :
    (n i : ℕ) (slots : List Slot) (best : Option ℕ)
    → Best slots i best
    → Best slots (i + n) (find_oldest n i slots best)
unfolding find_oldest
find_oldest-Best zero i slots best h = subst (λ t. Best slots t best) (omega arith) h
find_oldest-Best (suc n) i slots best h =
    subst (λ t. Best slots t (find_oldest (suc n) i slots best)) (omega arith)
      (find_oldest-Best n (i + 1) slots _ (Best-step slots i best h))

-- `oldest` is the filled slot with the least sequence number, and fails only if none is filled.
pub oldest-Best : (p : Pool) → Best p.slot p.nslots (oldest p)
unfolding oldest
oldest-Best p =
    subst (λ t. Best p.slot t (find_oldest p.nslots 0 p.slot none)) (omega arith)
      (find_oldest-Best p.nslots 0 p.slot none (λ j h. absurd (omega arith)))
