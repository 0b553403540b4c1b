-- ===== src/Threads/Progress/Stuck.antt =====
-- Threads that share the pool of src/vcam_pool.c and make no step.
use vcam_kmod.Base.{
  ℕ, ◌≡◌, ◌<◌, ◌⊎◌, ◌||◌, inl, inr, Bool, true, false, Option, none, some, List, [], ◌∷◌, ◌==◌,
  arith, refl, subst, sym, Bool-cases, ℕ_discrete, ◌∙◌,
}
use vcam_kmod.Kernel.{Kernel}
use vcam_kmod.Pool.State.{Pool}
use vcam_kmod.Pool.Step.{Call}
use vcam_kmod.Threads.Prog.{done, lock, unlock, read, write, service}
use vcam_kmod.Threads.Calls.{Thread}
use vcam_kmod.Threads.Discipline.{Inside}
use vcam_kmod.Threads.System.{System, Event, moves, disturbs, update, is_free, advance, move, play}
use vcam_kmod.Threads.Serial.Defs.{Order, Owns}
use vcam_kmod.Threads.Progress.Steps.{
  can_move, has_returned, unreturned-can_move, steps, moved_below,
}

module _ (k : Kernel) where
  -- A thread without a step leaves the others as they are.
  stuck_advance :
      (t : Thread k) (i j : ℕ) (s : System k)
      → can_move t s.owner ≡ false
      → can_move ((advance k t i s).thread j) (advance k t i s).owner
        ≡ can_move (s.thread j) s.owner
  unfolding advance
  stuck_advance (done r) i j s e = refl
  stuck_advance (lock t) i j s e = rw e refl
  stuck_advance (unlock t) i j s e = ground arith
  stuck_advance (read f) i j s e = ground arith
  stuck_advance (write p t) i j s e = ground arith
  stuck_advance (service g f) i j s e = ground arith

  -- Thread `i` has a move among the events.
  abbrev pub has_move : ℕ → List (Event k) → Bool
  has_move i [] = false
  has_move i (moves j ∷ es) = j == i || has_move i es
  has_move i (disturbs w ∷ es) = has_move i es

  pub no_steps :
      (es : List (Event k)) (s : System k) (i : ℕ)
      → steps k es s ≡ 0
      → has_move i es ≡ true
      → can_move (s.thread i) s.owner ≡ false
  unfolding steps move
  no_steps [] s i e h = ground arith
  no_steps (disturbs w ∷ es) s i e h = no_steps es (record s { world = w }) i e h
  no_steps (moves j ∷ es) s i e h = elim (Bool-cases (can_move (s.thread j) s.owner)) [
    | inl c ↦ ground arith
    | inr c ↦ elim (Bool-cases (j == i)) [
      | inl same ↦ subst (λ x. can_move (s.thread x) s.owner ≡ false) (ground arith) c
      | inr other ↦
          sym (stuck_advance (s.thread j) j i s c)
          ∙ no_steps es (advance k (s.thread j) j s) i (ground arith) (ground arith)
    ]
  ]

  update_returned :
      (th : ℕ → Thread k) (i j : ℕ) (t : Thread k)
      → has_returned (th i) ≡ false
      → has_returned (th j) ≡ true
      → has_returned (update th i t j) ≡ true
  update_returned th i j t e h = elim (ℕ_discrete i j) [
    | yes same ↦ absurd (subst (λ x. has_returned (th x) ≡ true → ⊥) same (λ y. ground arith) h)
    | no other ↦ ground arith
  ]

  -- A call that has returned stays so.
  returned_advance :
      (t : Thread k) (i j : ℕ) (s : System k)
      → has_returned (s.thread i) ≡ has_returned t
      → has_returned (s.thread j) ≡ true
      → has_returned ((advance k t i s).thread j) ≡ true
  unfolding advance
  returned_advance (done r) i j s e h = h
  returned_advance (lock t) i j s e h = elim (Bool-cases (is_free s.owner)) [
    | inl f ↦ rw f (update_returned s.thread i j t e h)
    | inr f ↦ rw f h
  ]
  returned_advance (unlock t) i j s e h = update_returned s.thread i j t e h
  returned_advance (read f) i j s e h = update_returned s.thread i j _ e h
  returned_advance (write p t) i j s e h = update_returned s.thread i j t e h
  returned_advance (service g f) i j s e h = update_returned s.thread i j _ e h

  pub returned_play :
      (es : List (Event k)) (j : ℕ) (s : System k)
      → has_returned (s.thread j) ≡ true
      → has_returned ((play k es s).thread j) ≡ true
  unfolding play move
  returned_play [] j s h = h
  returned_play (disturbs w ∷ es) j s h = returned_play es j (record s { world = w }) h
  returned_play (moves i ∷ es) j s h =
      returned_play es j (advance k (s.thread i) i s) (returned_advance (s.thread i) i j s refl h)

  Inside-can_move :
      (c : Call) (p q : Pool) (o : ℕ) (t : Thread k) → Inside k c p q t → can_move t (some o) ≡ true
  Inside-can_move c p q o (done r) h = absurd h
  Inside-can_move c p q o (lock t) h = absurd h
  Inside-can_move c p q o (unlock t) h = refl
  Inside-can_move c p q o (read f) h = refl
  Inside-can_move c p q o (write p' t) h = refl
  Inside-can_move c p q o (service g f) h = refl

  -- Some thread can move: one that has not returned, or the owner of the mutex.
  pub Owns-can_move :
      (calls : ℕ → Call) (p0 : Pool) (o : Option ℕ) (ts : Order) (q p : Pool) (th : ℕ → Thread k)
      (i : ℕ)
      → has_returned (th i) ≡ false
      → Owns k calls p0 o ts q p th
      → (j : ℕ) × ((j ≡ i) ⊎ (o ≡ some j)) × (can_move (th j) o ≡ true)
  Owns-can_move calls p0 none ts q p th i e h = (i, inl refl, unreturned-can_move (th i) e)
  Owns-can_move calls p0 (some o) ts q p th i e (_, inside, _, _) =
      (o, inr refl, Inside-can_move (calls o) q p o (th o) inside)

  -- The owner of the mutex is one of the threads that have moved.
  abbrev pub OwnedBelow : ℕ → Option ℕ → Type 0
  OwnedBelow n none = Unit {0}
  OwnedBelow n (some o) = o < n

  owner_advance :
      (n : ℕ) (t : Thread k) (i : ℕ) (s : System k)
      → i < n
      → OwnedBelow n s.owner
      → OwnedBelow n (advance k t i s).owner
  unfolding advance
  owner_advance n (done r) i s h b = b
  owner_advance n (lock t) i s h b = elim (Bool-cases (is_free s.owner)) [
    | inl f ↦ rw f h
    | inr f ↦ rw f b
  ]
  owner_advance n (unlock t) i s h b = tt
  owner_advance n (read f) i s h b = b
  owner_advance n (write p t) i s h b = b
  owner_advance n (service g f) i s h b = b

  pub owner_play :
      (n : ℕ) (es : List (Event k)) (s : System k)
      → moved_below k n es ≡ true
      → OwnedBelow n s.owner
      → OwnedBelow n (play k es s).owner
  unfolding play move
  owner_play n [] s h b = b
  owner_play n (disturbs w ∷ es) s h b = owner_play n es (record s { world = w }) h b
  owner_play n (moves i ∷ es) s h b =
      owner_play n es (advance k (s.thread i) i s) (ground arith)
        (owner_advance n (s.thread i) i s (ground arith) b)
