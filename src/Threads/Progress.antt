-- ===== src/Threads/Progress.antt =====
-- The steps of threads that share the pool of src/vcam_pool.c under a fair scheduler.
pub mod Length
pub mod Totals
pub mod Steps
pub mod Stuck
use vcam_kmod.Base.{
  ℕ, zero, suc, ◌*◌, ◌≡◌, ◌≤◌, ◌<◌, ◌⊎◌, inl, inr, Bool, true, false, ◌&&◌, Option, none, some,
  List, [], ◌∷◌, ◌++◌, length, arith, refl, subst, Bool-cases, ℕ_discrete,
}
use vcam_kmod.Kernel.{Kernel}
use vcam_kmod.Pool.State.{Pool}
use vcam_kmod.Pool.Step.{Call}
use vcam_kmod.Threads.System.{System, Event, play, start}
use vcam_kmod.Threads.Serial.Defs.{Order, Follows}
use vcam_kmod.Threads.Serial.Moves.{play-Follows}
use vcam_kmod.Threads.Serial.{start-Follows}
use vcam_kmod.Threads.Progress.Length.{longest, program-Ends}
use vcam_kmod.Threads.Progress.Totals.{total, total-const}
use vcam_kmod.Threads.Progress.Steps.{
  can_move, has_returned, steps, moved_below, AllEnd, play-AllEnd,
}
use vcam_kmod.Threads.Progress.Stuck.{
  has_move, no_steps, returned_play, Owns-can_move, OwnedBelow, owner_play,
}

module _ (k : Kernel) where
  -- Every thread below `n` has a move among the events.
  abbrev pub covers : ℕ → List (Event k) → Bool
  covers zero es = true
  covers (suc n) es = has_move k n es && covers n es

  -- In each round, every thread below `n` has a move, and no other thread has one.
  abbrev pub all_fair : ℕ → List (List (Event k)) → Bool
  all_fair n [] = true
  all_fair n (es ∷ rounds) = moved_below k n es && covers n es && all_fair n rounds

  unfoldable pub play_rounds : List (List (Event k)) → System k → System k
  unfolding play
  play_rounds [] s = s
  play_rounds (es ∷ rounds) s = play_rounds rounds (play k es s)

  covers-has_move :
      (n j : ℕ) (es : List (Event k)) → covers n es ≡ true → j < n → has_move k j es ≡ true
  covers-has_move zero j es c h = absurd (omega arith)
  covers-has_move (suc n) j es c h = elim (ℕ_discrete j n) [
    | yes same ↦ ground arith
    | no other ↦ covers-has_move n j es (ground arith) (omega (arith, other))
  ]

  returned_rounds :
      (rounds : List (List (Event k))) (i : ℕ) (s : System k)
      → has_returned (s.thread i) ≡ true
      → has_returned ((play_rounds rounds s).thread i) ≡ true
  unfolding play_rounds
  returned_rounds [] i s h = h
  returned_rounds (es ∷ rounds) i s h =
      returned_rounds rounds i (play k es s) (returned_play k es i s h)

  module _ (calls : ℕ → Call) (p : Pool) (n : ℕ) where
    -- A round without a step finds every call returned.
    idle_returned :
        (es : List (Event k)) (s : System k) (ts : Order) (i : ℕ)
        → Follows k calls p s.owner s.pool s.thread ts
        → OwnedBelow k n s.owner
        → covers n es ≡ true
        → steps k es s ≡ 0
        → i < n
        → has_returned (s.thread i) ≡ true
    idle_returned es s ts i f b c e h = elim (Bool-cases (has_returned (s.thread i))) [
      | inl r ↦ r
      | inr r ↦
          let (j, which, m) =
            Owns-can_move k calls p s.owner ts f.reached s.pool s.thread i r f.owns in
          let below : j < n = elim which [
            | inl same ↦ ground (arith, same)
            | inr owner ↦ subst (OwnedBelow k n) owner b
          ] in
          let stuck = no_steps k es s j e (covers-has_move n j es c below) in
          ground (arith, m, stuck)
    ]

    rounds_returned :
        (rounds : List (List (Event k))) (s : System k) (ts : Order) (left : ℕ → ℕ) (i : ℕ)
        → Follows k calls p s.owner s.pool s.thread ts
        → OwnedBelow k n s.owner
        → AllEnd k s.thread left
        → total left n < length rounds
        → all_fair n rounds ≡ true
        → i < n
        → has_returned ((play_rounds rounds s).thread i) ≡ true
    unfolding play_rounds
    rounds_returned [] s ts left i f b a t fair h = absurd (omega arith)
    rounds_returned (es ∷ rounds) s ts left i f b a t fair h = elim (ℕ_discrete (steps k es s) 0) [
      | yes idle ↦
          returned_rounds rounds i (play k es s)
            (returned_play k es i s (idle_returned es s ts i f b (ground arith) idle h))
      | no busy ↦
          let (left', a', le) = play-AllEnd k n es s left (ground arith) a in
          let (new, f') = play-Follows k calls p es s ts f in
          rounds_returned rounds (play k es s) (new ++ ts) left' i f'
            (owner_play k n es s (ground arith) b) a' (omega (arith, le, busy)) (ground arith) h
    ]

    -- Threads below a number call the pool, one call each. If in each round of the scheduler every
    -- one of them gets a move and no other thread does, in any order and as often as it likes, then
    -- after more than 6 rounds for each thread every call has returned, whatever the calls are and
    -- whatever other processes do: no call waits for ever, neither for the mutex nor in a loop.
    pub rounds_return :
        (w : k.World) (rounds : List (List (Event k))) (i : ℕ)
        → all_fair n rounds ≡ true
        → longest * n < length rounds
        → i < n
        → has_returned ((play_rounds rounds (start k calls p w)).thread i) ≡ true
    unfolding play
    rounds_return w rounds i fair many h =
        let (ts, f) = start-Follows k calls p w [] in
        rounds_returned rounds (start k calls p w) ts (λ i. longest) i f tt
          (λ i. program-Ends k (calls i)) (omega (arith, many, total-const longest n)) fair h
