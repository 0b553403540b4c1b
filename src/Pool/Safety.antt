-- ===== src/Pool/Safety.antt =====
-- The invariant of src/vcam_pool.c at `vcam_pool_init` and through calls.
use vcam_kmod.Base.{
  ℕ, zero, suc, ◌≡◌, ◌<◌, ◌≤◌, arith, refl, List, [], ◌∷◌, subst, ltb, ◌==◌, ◌||◌, true, false, sym,
}
use vcam_kmod.Kernel.{Kernel, ok}
use vcam_kmod.Pool.State.{Pool, init, slot_at, zero_slot, zero_pool, max_slots}
use vcam_kmod.Pool.Step.{Call, step, run}
use vcam_kmod.Pool.Invariant.Defs.{IsValid, is_live}
use vcam_kmod.Pool.Invariant.Settings.{step-IsControl}
use vcam_kmod.Pool.Change.Step.{step-Change}
use vcam_kmod.Pool.Change.Keeps.{Change-PoolSlots}

slot_at-zero : (i : ℕ) → slot_at zero_pool.slot i ≡ zero_slot
slot_at-zero zero = refl
slot_at-zero (suc zero) = refl
slot_at-zero (suc (suc zero)) = refl
slot_at-zero (suc (suc (suc zero))) = refl
slot_at-zero (suc (suc (suc (suc zero)))) = refl
slot_at-zero (suc (suc (suc (suc (suc zero))))) = refl
slot_at-zero (suc (suc (suc (suc (suc (suc zero)))))) = refl
slot_at-zero (suc (suc (suc (suc (suc (suc (suc zero))))))) = refl
slot_at-zero (suc (suc (suc (suc (suc (suc (suc (suc i)))))))) = refl

-- For 1 to 8 slots `vcam_pool_init` succeeds and makes a valid pool, whatever the pool held before.
pub init-IsValid :
    (p : Pool) (n : ℕ) → 0 < n → n ≤ max_slots → ((init p n).0 ≡ ok tt) × IsValid (init p n).1
unfolding init
init-IsValid p n lo hi =
    let accepted : (n == 0 || ltb max_slots n) ≡ false = ground arith in
    rw accepted (
      refl,
      record {
        pool = record {
          size = refl;
          count = (lo, hi);
          each = λ i. rw (slot_at-zero i) (ground arith);
          spare = λ i _. rw (slot_at-zero i);
          unique = λ i j a b e.
              absurd (subst (λ s. is_live s.state ≡ true → ⊥) (sym (slot_at-zero i)) (λ z. cc) a);
          order = omega arith;
        };
        control = ground arith;
      },
    )

module _ (k : Kernel) where
  -- Every call keeps the invariant, whatever it returns and whatever the machine does.
  pub step-IsValid : {p : Pool} (c : Call) (w : k.World) → IsValid p → IsValid (step k c p w).1
  step-IsValid {p} c w v = record {
    pool = Change-PoolSlots v.pool (step-Change k c p w);
    control = step-IsControl k p v.control c w;
  }

  -- A valid pool stays valid through any calls, each in any state of the machine: the number of
  -- slots stays from 1 to 8, a slot has a buffer unless it is unbound, its geometry has been
  -- checked, waiting frames are newer than the last one taken, no two frames share a number, the
  -- resolved pose is in range, and the settings are in theirs.
  pub run-IsValid : (cs : List (Call × k.World)) {p : Pool} → IsValid p → IsValid (run k cs p).1
  unfolding run
  run-IsValid [] v = v
  run-IsValid ((c, w) ∷ cs) v = run-IsValid cs (step-IsValid c w v)
