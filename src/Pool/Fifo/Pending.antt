-- ===== src/Pool/Fifo/Pending.antt =====
-- The frames that wait in the slots, oldest first: the queue that the pool stands for.
use vcam_kmod.Base.{
  ℕ, zero, suc, ◌<◌, ◌≡◌, ◌≢◌, refl, arith, true, false, List, [], ◌∷◌, ◌++◌, ltb, if◌then◌else◌,
  set, length,
}
use mathlib.Core.List.{map}
use vcam_kmod.Pool.State.{Slot, is_filled, slot_at}

unfoldable pub insert : Slot → List Slot → List Slot
insert x [] = x ∷ []
insert x (y ∷ ys) = if ltb x.seq y.seq then x ∷ y ∷ ys else y ∷ insert x ys

-- The filled slots, by ascending number.
unfoldable pub waiting : List Slot → List Slot
unfolding insert
waiting [] = []
waiting (s ∷ ss) = if is_filled s.state then insert s (waiting ss) else waiting ss

-- Their numbers.
unfoldable pub pending : List Slot → List ℕ
unfolding waiting
pending slots = map (λ (s : Slot). s.seq) (waiting slots)

abbrev AllBelow : ℕ → List Slot → Type 0
AllBelow q [] = Unit {0}
AllBelow q (x ∷ xs) = (x.seq < q) × AllBelow q xs

abbrev AllAbove : ℕ → List Slot → Type 0
AllAbove q [] = Unit {0}
AllAbove q (x ∷ xs) = (q < x.seq) × AllAbove q xs

insert-AllBelow :
    (q : ℕ) (x : Slot) (xs : List Slot) → x.seq < q → AllBelow q xs → AllBelow q (insert x xs)
unfolding insert
insert-AllBelow q x [] h a = (h, tt)
insert-AllBelow q x (y ∷ ys) h a = ground (arith, insert-AllBelow q x ys)

insert-AllAbove :
    (q : ℕ) (x : Slot) (xs : List Slot) → q < x.seq → AllAbove q xs → AllAbove q (insert x xs)
unfolding insert
insert-AllAbove q x [] h a = (h, tt)
insert-AllAbove q x (y ∷ ys) h a = ground (arith, insert-AllAbove q x ys)

-- A new greatest number goes to the end.
insert-greatest : (x : Slot) (xs : List Slot) → AllBelow x.seq xs → insert x xs ≡ xs ++ x ∷ []
unfolding insert
insert-greatest x [] a = refl
insert-greatest x (y ∷ ys) a = ground (arith, insert-greatest x ys)

-- A new least number goes to the front.
insert-least : (x : Slot) (xs : List Slot) → AllAbove x.seq xs → insert x xs ≡ x ∷ xs
unfolding insert
insert-least x [] a = refl
insert-least x (y ∷ ys) a = ground arith

insert-append_end :
    (x s : Slot) (xs : List Slot) → x.seq < s.seq → insert x (xs ++ s ∷ []) ≡ insert x xs ++ s ∷ []
unfolding insert
insert-append_end x s [] h = ground arith
insert-append_end x s (y ∷ ys) h = ground (arith, insert-append_end x s ys)

insert_behind : (x s : Slot) (xs : List Slot) → s.seq < x.seq → insert x (s ∷ xs) ≡ s ∷ insert x xs
unfolding insert
insert_behind x s xs h = ground arith

waiting-AllBelow :
    (q : ℕ) (slots : List Slot)
    → ((j : ℕ) → is_filled (slot_at slots j).state ≡ true → (slot_at slots j).seq < q)
    → AllBelow q (waiting slots)
unfolding waiting
waiting-AllBelow q [] h = tt
waiting-AllBelow q (s ∷ ss) h =
    let rest = waiting-AllBelow q ss (λ j. h (suc j)) in
    let first = h 0 in ground (arith, rest, first, insert-AllBelow q s (waiting ss))

waiting-AllAbove :
    (q : ℕ) (slots : List Slot)
    → ((j : ℕ) → is_filled (slot_at slots j).state ≡ true → q < (slot_at slots j).seq)
    → AllAbove q (waiting slots)
unfolding waiting
waiting-AllAbove q [] h = tt
waiting-AllAbove q (s ∷ ss) h =
    let rest = waiting-AllAbove q ss (λ j. h (suc j)) in
    let first = h 0 in ground (arith, rest, first, insert-AllAbove q s (waiting ss))

-- A write between states that are not filled leaves the queue.
pub waiting-set_other :
    (slots : List Slot) (i : ℕ) (s : Slot)
    → is_filled (slot_at slots i).state ≡ false
    → is_filled s.state ≡ false
    → waiting (set slots i s) ≡ waiting slots
unfolding waiting
waiting-set_other [] i s old new = refl
waiting-set_other (x ∷ xs) zero s old new = rw (old, new)
waiting-set_other (x ∷ xs) (suc i) s old new = rw (waiting-set_other xs i s old new)

-- Filling a slot with a new greatest number appends that slot.
pub waiting-set_fill :
    (slots : List Slot) (i : ℕ) (s : Slot)
    → i < length slots
    → is_filled (slot_at slots i).state ≡ false
    → is_filled s.state ≡ true
    → ((j : ℕ) → is_filled (slot_at slots j).state ≡ true → (slot_at slots j).seq < s.seq)
    → waiting (set slots i s) ≡ waiting slots ++ s ∷ []
unfolding waiting
waiting-set_fill [] i s h old new top = absurd (omega arith)
waiting-set_fill (x ∷ xs) zero s h old new top =
    rw (old, new) (insert-greatest s (waiting xs) (waiting-AllBelow s.seq xs (λ j. top (suc j))))
waiting-set_fill (x ∷ xs) (suc i) s h old new top =
    let rest = waiting-set_fill xs i s (omega arith) old new (λ j. top (suc j)) in
    let first = top 0 in ground (arith, rest, first, insert-append_end x s (waiting xs))

-- Emptying the slot with the least number removes it from the front.
pub waiting-set_take :
    (slots : List Slot) (i : ℕ) (s : Slot)
    → i < length slots
    → is_filled (slot_at slots i).state ≡ true
    → is_filled s.state ≡ false
    → ((j : ℕ)
        → i ≢ j
        → is_filled (slot_at slots j).state ≡ true
        → (slot_at slots i).seq < (slot_at slots j).seq)
    → waiting slots ≡ slot_at slots i ∷ waiting (set slots i s)
unfolding waiting
waiting-set_take [] i s h old new least = absurd (omega arith)
waiting-set_take (x ∷ xs) zero s h old new least =
    rw (old, new)
      (insert-least x (waiting xs)
        (waiting-AllAbove x.seq xs (λ j. least (suc j) (λ e. omega arith))))
waiting-set_take (x ∷ xs) (suc i) s h old new least =
    let rest =
      waiting-set_take xs i s (omega arith) old new
        (λ j ne. least (suc j) (λ e. ne (omega arith))) in
    let first = least 0 (λ e. omega arith) in
    ground (arith, rest, first, insert_behind x (slot_at xs i) (waiting (set xs i s)))

-- Without a filled slot nothing waits.
pub waiting-none :
    (slots : List Slot) → ((j : ℕ) → is_filled (slot_at slots j).state ≡ false) → waiting slots ≡ []
unfolding waiting
waiting-none [] h = refl
waiting-none (s ∷ ss) h = rw (h 0) (waiting-none ss (λ j. h (suc j)))
