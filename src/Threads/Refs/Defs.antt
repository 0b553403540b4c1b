-- ===== src/Threads/Refs/Defs.antt =====
-- The dma-buf references that a thread holds in the middle of a call of src/vcam_pool.c, as a
-- predicate on the rest of its program. A holding gives the references to each buffer.
use vcam_kmod.Base.{ℕ, ◌+◌, ◌≡◌, ◌≤◌, ◌<◌, ◌⊎◌}
use vcam_kmod.Kernel.{Kernel}
use vcam_kmod.Pool.State.{Pool}
use vcam_kmod.Pool.Invariant.Defs.{IsValid}
use vcam_kmod.Pool.Refs.Held.{held_refs}
use vcam_kmod.Pool.Refs.Calls.{given}
use vcam_kmod.Threads.Prog.{done, lock, unlock, read, write, service}
use vcam_kmod.Threads.Calls.{Thread}

abbrev pub Holding : Type 0
Holding = ℕ → ℕ

abbrev pub nothing_held : Holding
nothing_held b = 0

abbrev pub pool_refs : Pool → Holding
pool_refs p b = held_refs b p.slot

module _ (k : Kernel) (limit : ℕ) where
  -- The counters have room for one reference more, and those of the holding are real.
  pub record Fits (n : Holding) (w : k.World) : Type 0 where
    pub room : (b : ℕ) → k.refs b w < limit
    pub real : (b : ℕ) → n b ≤ k.refs b w

  -- From `w` to `w'` the counts change as the holding does, from `n` to `n'`.
  abbrev pub Moves : k.World → k.World → Holding → Holding → Type 0
  Moves w w' n n' = (b : ℕ) → k.refs b w' + n b ≡ k.refs b w + n' b

  -- After the critical section, with `n` held: in the end, what the reply hands out is left.
  abbrev pub Settles : Holding → Thread k → Type 0
  Settles n (done r) = (b : ℕ) → given b r ≡ n b
  Settles n (lock t) = ⊥
  Settles n (unlock t) = ⊥
  Settles n (read f) = (p : Pool) → Settles n (f p)
  Settles n (write p t) = ⊥
  Settles n (service e f) =
      (w : k.World) → Fits n w → (n' : Holding) × Moves w (e w) n n' × Settles n' (f w)

  -- In the critical section, with the pool now at `p`: `m` is held by the pool and the thread
  -- together, and at the end the pool's slots account for their part of it.
  abbrev pub Locked : Holding → Pool → Thread k → Type 0
  Locked m p (done r) = ⊥
  Locked m p (lock t) = ⊥
  Locked m p (unlock t) = (n : Holding) × ((b : ℕ) → m b ≡ pool_refs p b + n b) × Settles n t
  Locked m p (read f) = Locked m p (f p)
  Locked m p (write q t) = Locked m q t
  Locked m p (service e f) =
      (w : k.World) → Fits m w → (m' : Holding) × Moves w (e w) m m' × Locked m' p (f w)

  -- Before the critical section, with `n` held.
  abbrev pub Carries : Holding → Thread k → Type 0
  Carries n (done r) = (b : ℕ) → given b r ≡ n b
  Carries n (lock t) = (p : Pool) → IsValid p → Locked (λ b. pool_refs p b + n b) p t
  Carries n (unlock t) = ⊥
  Carries n (read f) = ⊥
  Carries n (write p t) = ⊥
  Carries n (service e f) =
      (w : k.World) → Fits n w → (n' : Holding) × Moves w (e w) n n' × Carries n' (f w)

  -- Outside the critical section.
  abbrev pub Holds : Holding → Thread k → Type 0
  Holds n t = Carries n t ⊎ Settles n t
