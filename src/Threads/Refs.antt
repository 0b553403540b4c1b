-- ===== src/Threads/Refs.antt =====
-- The dma-buf references of threads that call the pool of src/vcam_pool.c at the same time.
pub mod Defs
mod Producer
mod Consumer
mod Calls
pub mod Totals
mod Balance
mod Steps
use vcam_kmod.Base.{
  ℕ, zero, suc, ◌+◌, ◌-◌, ◌≡◌, ◌≤◌, ◌<◌, inl, inr, Bool, true, Option, none, some, List, [], ◌∷◌,
  ◌++◌, arith, refl, sym, ap, ◌∙◌,
}
use vcam_kmod.Kernel.{Kernel, CountsRefs}
use vcam_kmod.Pool.State.{Pool}
use vcam_kmod.Pool.Step.{Call}
use vcam_kmod.Pool.Invariant.Defs.{IsValid}
use vcam_kmod.Pool.Conserved.Defs.{IsConserved}
use vcam_kmod.Pool.Refs.Held.{held_refs}
use vcam_kmod.Pool.Refs.Calls.{given}
use vcam_kmod.Threads.Prog.{Prog, done, lock, unlock, read, write, service}
use vcam_kmod.Threads.Calls.{Thread}
use vcam_kmod.Threads.System.{System, Event, moves, disturbs, move, play, start}
use vcam_kmod.Threads.Serial.Defs.{Order, Follows}
use vcam_kmod.Threads.Serial.Moves.{play-Follows}
use vcam_kmod.Threads.Serial.{start-Follows, Follows-IsValid}
use vcam_kmod.Threads.Progress.Totals.{total}
use vcam_kmod.Threads.Progress.Steps.{has_returned, moved_below}
use vcam_kmod.Threads.Progress.Stuck.{OwnedBelow, owner_play}
use vcam_kmod.Threads.Refs.Defs.{Holding, nothing_held, pool_refs, Locked, Holds}
use vcam_kmod.Threads.Refs.Totals.{total_held, total_held-none}
use vcam_kmod.Threads.Refs.Calls.{program-Carries}
use vcam_kmod.Threads.Refs.Balance.{Ledger, Kept}
use vcam_kmod.Threads.Refs.Steps.{advance-Kept}

-- The references to `b` that a thread has been handed.
abbrev pub handed : {W : Type 0} → ℕ → Prog W → ℕ
handed b (done r) = given b r
handed b _ = 0

total-ext : (f g : ℕ → ℕ) (n : ℕ) → ((i : ℕ) → i < n → f i ≡ g i) → total f n ≡ total g n
total-ext f g zero h = refl
total-ext f g (suc n) h =
    omega (arith, h n (omega arith), total-ext f g n (λ i l. h i (omega arith)))

module _ (k : Kernel) (limit : ℕ) where
  -- The counters have room at each move, and other processes leave the counts as they are.
  abbrev pub Undisturbed : List (Event k) → System k → Type 0
  Undisturbed [] s = Unit {0}
  Undisturbed (moves i ∷ es) s =
      ((b : ℕ) → k.refs b s.world < limit) × Undisturbed es (move k (moves i) s)
  Undisturbed (disturbs w ∷ es) s =
      ((b : ℕ) → k.refs b w ≡ k.refs b s.world) × Undisturbed es (move k (disturbs w) s)

  returned-Locked :
      (m : Holding) (p : Pool) (t : Thread k) → has_returned t ≡ true → Locked k limit m p t → ⊥
  returned-Locked m p (done r) e a = a
  returned-Locked m p (lock t) e a = a
  returned-Locked m p (unlock t) e a = ground arith
  returned-Locked m p (read f) e a = ground arith
  returned-Locked m p (write q t) e a = ground arith
  returned-Locked m p (service g f) e a = ground arith

  returned-Holds :
      (m : Holding) (t : Thread k)
      → has_returned t ≡ true
      → Holds k limit m t
      → (b : ℕ) → m b ≡ handed b t
  returned-Holds m (done r) e (inl a) b = sym (a b)
  returned-Holds m (done r) e (inr a) b = sym (a b)
  returned-Holds m (lock t) e a b = ground arith
  returned-Holds m (unlock t) e a b = ground arith
  returned-Holds m (read f) e a b = ground arith
  returned-Holds m (write q t) e a b = ground arith
  returned-Holds m (service g f) e a b = ground arith

  module _ (laws : CountsRefs k limit) (calls : ℕ → Call) (p : Pool) (n : ℕ) (base : Holding)
      (good : IsValid p × IsConserved p) where
    play-Kept :
        (es : List (Event k)) (s : System k) (ts : Order)
        → moved_below k n es ≡ true
        → Undisturbed es s
        → Follows k calls p s.owner s.pool s.thread ts
        → Kept k limit base n s
        → Kept k limit base n (play k es s)
    unfolding play move
    play-Kept [] s ts low u f l = l
    play-Kept (disturbs w ∷ es) s ts low (same, u) f (c, l) =
        play-Kept es (record s { world = w }) ts low u f
          (c, disturbed s.owner s.pool s.world w s.thread c same l)
      where
        disturbed :
            (o : Option ℕ) (q : Pool) (v w : k.World) (th : ℕ → Thread k) (c : ℕ → Holding)
            → ((b : ℕ) → k.refs b w ≡ k.refs b v)
            → Ledger k limit base n o q v th c
            → Ledger k limit base n o q w th c
        disturbed none q v w th c same (b, each) = (λ x. same x ∙ b x, each)
        disturbed (some o) q v w th c same (m, b, rest, zeros, each) =
            (m, λ x. same x ∙ b x, rest, zeros, each)
    play-Kept (moves i ∷ es) s ts low (room, u) f (c, l) =
        let (new, f') = play-Follows k calls p (moves i ∷ []) s ts f in
        play-Kept es (move k (moves i) s) (new ++ ts) (ground arith) u f' (
          advance-Kept k limit base n i (ground arith) s.owner s.pool s.world s.thread c
            (λ e. (Follows-IsValid k calls p s ts good f e).0) room l)

    -- Once all have returned, the counts are those of the others, the pool and the replies.
    returned-Kept :
        (o : Option ℕ) (q : Pool) (w : k.World) (th : ℕ → Thread k) (c : ℕ → Holding)
        → OwnedBelow k n o
        → ((i : ℕ) → i < n → has_returned (th i) ≡ true)
        → Ledger k limit base n o q w th c
        → (b : ℕ) → k.refs b w ≡ base b + pool_refs q b + total (λ i. handed b (th i)) n
    returned-Kept none q w th c low all (s, each) b = omega (
      arith,
      s b,
      total-ext (λ i. c i b) (λ i. handed b (th i)) n
          (λ i h. returned-Holds (c i) (th i) (all i h) (each i) b),
    )
    returned-Kept (some o) q w th c low all (m, _, inside, _, _) b =
        absurd (returned-Locked m q (th o) (all o low) inside)

  -- No reference leaks among threads. Threads below a number, each with one call, start on a valid
  -- pool whose counters agree with its slots and whose references are real. Their steps alternate
  -- in any way, the counters have room at each step, and other processes leave the counts alone.
  -- Once every call has returned, the references to each buffer have changed by what the pool's
  -- slots have gained or lost, and by the ones that the replies of `vcam_pool_acquire` handed out.
  pub play-refs :
      (laws : CountsRefs k limit) (calls : ℕ → Call) (p : Pool) (w : k.World) (n : ℕ)
      (es : List (Event k))
      → IsValid p
      → IsConserved p
      → ((b : ℕ) → held_refs b p.slot ≤ k.refs b w)
      → moved_below k n es ≡ true
      → Undisturbed es (start k calls p w)
      → ((i : ℕ) → i < n → has_returned ((play k es (start k calls p w)).thread i) ≡ true)
      → let s = play k es (start k calls p w) in
        (b : ℕ)
        → k.refs b s.world + held_refs b p.slot
          ≡ k.refs b w + held_refs b s.pool.slot + total (λ i. handed b (s.thread i)) n
  unfolding play
  play-refs laws calls p w n es v counted real low u all b =
      let s = play k es (start k calls p w) in
      let base : Holding = λ b. k.refs b w - held_refs b p.slot in
      let (ts, f) = start-Follows k calls p w [] in
      let balanced : (b : ℕ)
          → k.refs b w ≡ base b + pool_refs p b + total_held (λ i. nothing_held) n b =
        λ b. omega (arith, real b, total_held-none n b) in
      let (c, l) =
        play-Kept laws calls p n base (v, counted) es (start k calls p w) ts low u f
          (λ i. nothing_held, (balanced, λ i. inl (program-Carries k laws (calls i)))) in
      let e =
        returned-Kept laws calls p n base (v, counted) s.owner s.pool s.world s.thread c
          (owner_play k n es (start k calls p w) low tt) all l b in
      omega (arith, e, real b)
