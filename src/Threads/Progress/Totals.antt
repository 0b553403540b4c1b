-- ===== src/Threads/Progress/Totals.antt =====
-- The steps that the threads which call src/vcam_pool.c have left, in total.
use vcam_kmod.Base.{ℕ, zero, suc, ◌+◌, ◌*◌, ◌≡◌, ◌≤◌, ◌<◌, arith, refl, ℕ_discrete}
use vcam_kmod.Threads.System.{update}

-- The sum of `f` below `n`.
abbrev pub total : (ℕ → ℕ) → ℕ → ℕ
total f zero = 0
total f (suc n) = total f n + f n

pub total-const : (m n : ℕ) → total (λ i. m) n ≡ m * n
total-const m zero = ground arith
total-const m (suc n) = ground (arith, total-const m n)

total-beyond : (f : ℕ → ℕ) (i m n : ℕ) → n ≤ i → total (update f i m) n ≡ total f n
total-beyond f i m zero h = refl
total-beyond f i m (suc n) h = ground (arith, total-beyond f i m n)

pub total-update :
    (f : ℕ → ℕ) (i m n : ℕ) → i < n → f i ≡ suc m → suc (total (update f i m) n) ≡ total f n
total-update f i m zero h e = absurd (omega arith)
total-update f i m (suc n) h e = elim (ℕ_discrete i n) [
  | yes same ↦ ground (arith, total-beyond f i m n)
  | no other ↦ ground (arith, total-update f i m n)
]
