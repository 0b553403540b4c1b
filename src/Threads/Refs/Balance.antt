-- ===== src/Threads/Refs/Balance.antt =====
-- The references of all threads that call src/vcam_pool.c, step by step.
use vcam_kmod.Base.{
  ℕ, ◌+◌, ◌≡◌, ◌≢◌, ◌≤◌, ◌<◌, inl, inr, Option, none, some, ◌==◌, arith, refl, ap, sym, subst,
  Bool-cases, ℕ_discrete,
}
use vcam_kmod.Kernel.{Kernel}
use vcam_kmod.Pool.State.{Pool}
use vcam_kmod.Threads.Calls.{Thread}
use vcam_kmod.Threads.System.{System, update}
use vcam_kmod.Threads.Serial.Outside.{update_same, update_other}
use vcam_kmod.Threads.Refs.Defs.{Holding, nothing_held, pool_refs, Moves, Settles, Locked, Holds}
use vcam_kmod.Threads.Refs.Totals.{total_held, total_held-update}

-- `limit` bounds the counters, `base` is what others hold, and the threads are those below `n`.
module _ (k : Kernel) (limit : ℕ) (base : Holding) (n : ℕ) where
  -- The counts are those of the others, `m`, and those of the threads.
  abbrev pub Balances : Holding → (ℕ → Holding) → k.World → Type 0
  Balances m c w = (b : ℕ) → k.refs b w ≡ base b + m b + total_held c n b

  abbrev pub Ledger : Option ℕ → Pool → k.World → (ℕ → Thread k) → (ℕ → Holding) → Type 0
  Ledger none p w th c = Balances (pool_refs p) c w × ((i : ℕ) → Holds k limit (c i) (th i))
  Ledger (some o) p w th c =
      (m : Holding) × Balances m c w
      × Locked k limit m p (th o)
      × ((b : ℕ) → c o b ≡ 0)
      × ((i : ℕ) → o ≢ i → Holds k limit (c i) (th i))

  -- The ledger of a state of the system, with some holdings.
  abbrev pub Kept : System k → Type 0
  Kept s = (c : ℕ → Holding) × Ledger s.owner s.pool s.world s.thread c

  update-Holds :
      (th : ℕ → Thread k) (c : ℕ → Holding) (i j : ℕ) (t : Thread k) (m : Holding)
      → Holds k limit m t
      → Holds k limit (c j) (th j)
      → Holds k limit (update c i m j) (update th i t j)
  update-Holds th c i j t m a h = elim (Bool-cases (i == j)) [ inl e ↦ rw e a | inr e ↦ rw e h ]

  -- A thread outside goes on from `w` to `w'`, and from its holding to `m`.
  pub update-Ledger :
      (o : Option ℕ) (p : Pool) (w w' : k.World) (th : ℕ → Thread k) (c : ℕ → Holding) (i : ℕ)
      (t : Thread k) (m : Holding)
      → i < n
      → o ≢ some i
      → Holds k limit m t
      → Moves k limit w w' (c i) m
      → Ledger o p w th c
      → Ledger o p w' (update th i t) (update c i m)
  update-Ledger none p w w' th c i t m h out a e (s, each) = (
    λ b. omega (arith, s b, e b, total_held-update c i m b n h),
    λ j. update-Holds th c i j t m a (each j),
  )
  update-Ledger (some o) p w w' th c i t m h out a e (l, s, inside, zero_held, each) =
      let other : i ≢ o = λ q. out (ap some (sym q)) in
      (
        l,
        λ b. omega (arith, s b, e b, total_held-update c i m b n h),
        rw (update_other th i o t other) inside,
        λ b. rw (update_other c i o m other) (zero_held b),
        λ j q. update-Holds th c i j t m a (each j q),
      )

  pub holding-le :
      (o : Option ℕ) (p : Pool) (w : k.World) (th : ℕ → Thread k) (c : ℕ → Holding) (i : ℕ)
      → i < n
      → Ledger o p w th c
      → (b : ℕ) → c i b ≤ k.refs b w
  holding-le none p w th c i h (s, _) b =
      omega (arith, s b, total_held-update c i nothing_held b n h)
  holding-le (some o) p w th c i h (l, s, _, _, _) b =
      omega (arith, s b, total_held-update c i nothing_held b n h)

  pub lock-Ledger :
      (p : Pool) (w : k.World) (th : ℕ → Thread k) (c : ℕ → Holding) (i : ℕ) (t : Thread k)
      → i < n
      → Locked k limit (λ b. pool_refs p b + c i b) p t
      → Ledger none p w th c
      → Ledger (some i) p w (update th i t) (update c i nothing_held)
  lock-Ledger p w th c i t h inside (s, each) = (
    λ b. pool_refs p b + c i b,
    λ b. omega (arith, s b, total_held-update c i nothing_held b n h),
    rw (update_same th i t) inside,
    λ b. rw (update_same c i nothing_held) refl,
    λ j q. rw (update_other th i j t q, update_other c i j nothing_held q) (each j),
  )

  pub unlock-Ledger :
      (p : Pool) (w : k.World) (th : ℕ → Thread k) (c : ℕ → Holding) (i : ℕ) (t : Thread k)
      (m r : Holding)
      → i < n
      → Balances m c w
      → ((b : ℕ) → c i b ≡ 0)
      → ((j : ℕ) → i ≢ j → Holds k limit (c j) (th j))
      → ((b : ℕ) → m b ≡ pool_refs p b + r b)
      → Settles k limit r t
      → Ledger none p w (update th i t) (update c i r)
  unlock-Ledger p w th c i t m r h s zero_held each split a = (
    λ b. omega (arith, s b, zero_held b, split b, total_held-update c i r b n h),
    λ j. elim (ℕ_discrete i j) [
      | yes e ↦
          subst (λ x. Holds k limit (update c i r x) (update th i t x)) e
            (rw (update_same th i t, update_same c i r) (inr a))
      | no q ↦ rw (update_other th i j t q, update_other c i j r q) (each j q)
    ],
  )

  -- The thread that holds the mutex goes on inside.
  pub inside-Ledger :
      (p p' : Pool) (w w' : k.World) (th : ℕ → Thread k) (c : ℕ → Holding) (i : ℕ) (t : Thread k)
      (m m' : Holding)
      → Balances m c w
      → ((b : ℕ) → c i b ≡ 0)
      → ((j : ℕ) → i ≢ j → Holds k limit (c j) (th j))
      → Moves k limit w w' m m'
      → Locked k limit m' p' t
      → Ledger (some i) p' w' (update th i t) c
  inside-Ledger p p' w w' th c i t m m' s zero_held each e inside = (
    m',
    λ b. omega (arith, s b, e b),
    rw (update_same th i t) inside,
    zero_held,
    λ j q. rw (update_other th i j t q) (each j q),
  )
