-- ===== src/Threads/Progress/Steps.antt =====
-- The steps of threads that share the pool of src/vcam_pool.c, counted.
use vcam_kmod.Base.{
  ℕ, zero, suc, ◌+◌, ◌≡◌, ◌≤◌, ◌⊎◌, inl, inr, Bool, true, false, ◌&&◌, Option, none, List, [], ◌∷◌,
  ◌==◌, if◌then◌else◌, arith, refl, ltb, Bool-cases,
}
use vcam_kmod.Kernel.{Kernel}
use vcam_kmod.Threads.Prog.{Prog, done, lock, unlock, read, write, service}
use vcam_kmod.Threads.Calls.{Thread}
use vcam_kmod.Threads.System.{System, Event, moves, disturbs, update, is_free, advance, move, play}
use vcam_kmod.Threads.Progress.Totals.{total, total-update}
use vcam_kmod.Threads.Progress.Length.{
  Ends, at_done, at_lock, at_unlock, at_read, at_write, at_service,
}

-- A thread that can make a step.
abbrev pub can_move : {W : Type 0} → Prog W → Option ℕ → Bool
can_move (done r) o = false
can_move (lock t) o = is_free o
can_move (unlock t) o = true
can_move (read f) o = true
can_move (write p t) o = true
can_move (service e f) o = true

-- A thread that has returned.
abbrev pub has_returned : {W : Type 0} → Prog W → Bool
has_returned (done r) = true
has_returned (lock t) = false
has_returned (unlock t) = false
has_returned (read f) = false
has_returned (write p t) = false
has_returned (service e f) = false

pub unreturned-can_move :
    {W : Type 0} (t : Prog W) → has_returned t ≡ false → can_move t none ≡ true
unreturned-can_move (done r) e = ground arith
unreturned-can_move (lock t) e = refl
unreturned-can_move (unlock t) e = refl
unreturned-can_move (read f) e = refl
unreturned-can_move (write p t) e = refl
unreturned-can_move (service g f) e = refl

module _ (k : Kernel) where
  -- The moves among the events that make a step, and the threads that move.
  unfoldable pub steps : List (Event k) → System k → ℕ
  unfolding move
  steps [] s = 0
  steps (moves i ∷ es) s =
      let rest = steps es (move k (moves i) s) in
      if can_move (s.thread i) s.owner then suc rest else rest
  steps (disturbs w ∷ es) s = steps es (move k (disturbs w) s)

  -- The threads that move are below `n`.
  abbrev pub moved_below : ℕ → List (Event k) → Bool
  moved_below n [] = true
  moved_below n (moves i ∷ es) = ltb i n && moved_below n es
  moved_below n (disturbs w ∷ es) = moved_below n es

  -- Thread `i` has at most `left i` steps left.
  abbrev pub AllEnd : (ℕ → Thread k) → (ℕ → ℕ) → Type 0
  AllEnd th left = (i : ℕ) → Ends k (th i) (left i)

  update-AllEnd :
      (th : ℕ → Thread k) (left : ℕ → ℕ) (i : ℕ) (t : Thread k) (m : ℕ)
      → AllEnd th left
      → Ends k t m
      → AllEnd (update th i t) (update left i m)
  update-AllEnd th left i t m h e j = elim (Bool-cases (i == j)) [
    | inl same ↦ rw same e
    | inr other ↦ rw other (h j)
  ]

  -- A move of a thread with the program `t` and at most `n` steps left.
  Stepped : (t : Thread k) (n i : ℕ) (left : ℕ → ℕ) (s : System k) → Type 0
  Stepped t n i left s =
      ((m : ℕ) × (n ≡ suc m)
        × (can_move t s.owner ≡ true)
        × AllEnd (advance k t i s).thread (update left i m))
      ⊎ ((can_move t s.owner ≡ false) × AllEnd (advance k t i s).thread left)

  advance-Stepped :
      (t : Thread k) (n i : ℕ) (left : ℕ → ℕ) (s : System k)
      → AllEnd s.thread left
      → Ends k t n
      → Stepped t n i left s
  unfolding Stepped advance
  advance-Stepped (done r) n i left s h at_done = inr (refl, h)
  advance-Stepped (lock t) zero i left s h e = elim e [ ]
  advance-Stepped (unlock t) zero i left s h e = elim e [ ]
  advance-Stepped (read f) zero i left s h e = elim e [ ]
  advance-Stepped (write p t) zero i left s h e = elim e [ ]
  advance-Stepped (service g f) zero i left s h e = elim e [ ]
  advance-Stepped (lock t) (suc m) i left s h (at_lock e) = elim (Bool-cases (is_free s.owner)) [
    | inl f ↦ rw f (inl (m, refl, refl, update-AllEnd s.thread left i t m h e))
    | inr f ↦ rw f (inr (refl, h))
  ]
  advance-Stepped (unlock t) (suc m) i left s h (at_unlock e) =
      inl (m, refl, refl, update-AllEnd s.thread left i t m h e)
  advance-Stepped (read f) (suc m) i left s h (at_read e) =
      inl (m, refl, refl, update-AllEnd s.thread left i _ m h (e s.pool))
  advance-Stepped (write p t) (suc m) i left s h (at_write e) =
      inl (m, refl, refl, update-AllEnd s.thread left i t m h e)
  advance-Stepped (service g f) (suc m) i left s h (at_service e) =
      inl (m, refl, refl, update-AllEnd s.thread left i _ m h (e s.world))

  -- The steps made and the steps left.
  pub play-AllEnd :
      (n : ℕ) (es : List (Event k)) (s : System k) (left : ℕ → ℕ)
      → moved_below n es ≡ true
      → AllEnd s.thread left
      → (left' : ℕ → ℕ) × AllEnd (play k es s).thread left'
        × (steps es s + total left' n ≤ total left n)
  unfolding steps play move Stepped
  play-AllEnd n [] s left b h = (left, h, ground arith)
  play-AllEnd n (disturbs w ∷ es) s left b h = play-AllEnd n es (record s { world = w }) left b h
  play-AllEnd n (moves i ∷ es) s left b h =
      elim (advance-Stepped (s.thread i) (left i) i left s h (h i)) [
        | inl (m, e, c, h') ↦
            let (left', h'', le) =
              play-AllEnd n es (advance k (s.thread i) i s) (update left i m) (ground arith) h' in
            let less : suc (total (update left i m) n) ≡ total left n =
              total-update left i m n (ground arith) e in
            rw c (left', h'', omega (arith, le, less))
        | inr (c, h') ↦ rw c (play-AllEnd n es (advance k (s.thread i) i s) left (ground arith) h')
      ]
