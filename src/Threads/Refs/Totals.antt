-- ===== src/Threads/Refs/Totals.antt =====
-- The references that the threads which call src/vcam_pool.c hold together.
use vcam_kmod.Base.{ℕ, zero, suc, ◌+◌, ◌≡◌, ◌≤◌, ◌<◌, arith, refl, ℕ_discrete}
use vcam_kmod.Threads.System.{update}
use vcam_kmod.Threads.Progress.Totals.{total}
use vcam_kmod.Threads.Refs.Defs.{Holding, nothing_held}

abbrev pub total_held : (ℕ → Holding) → ℕ → Holding
total_held c n b = total (λ i. c i b) n

module _ (c : ℕ → Holding) (i : ℕ) (m : Holding) (b : ℕ) where
  total_held-beyond : (n : ℕ) → n ≤ i → total_held (update c i m) n b ≡ total_held c n b
  total_held-beyond zero h = refl
  total_held-beyond (suc n) h = ground (arith, total_held-beyond n)

  pub total_held-update :
      (n : ℕ) → i < n → total_held (update c i m) n b + c i b ≡ total_held c n b + m b
  total_held-update zero h = absurd (omega arith)
  total_held-update (suc n) h = elim (ℕ_discrete i n) [
    | yes same ↦ ground (arith, total_held-beyond n)
    | no other ↦ ground (arith, total_held-update n)
  ]

pub total_held-none : (n b : ℕ) → total_held (λ i. nothing_held) n b ≡ 0
total_held-none zero b = refl
total_held-none (suc n) b = ground (arith, total_held-none n b)
