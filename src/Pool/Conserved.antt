-- ===== src/Pool/Conserved.antt =====
-- The counters of src/vcam_pool.c through sequences of calls.
pub mod Counts
pub mod Defs
mod Producer
mod Consumer
use vcam_kmod.Base.{
  ℕ, ◌+◌, ◌%◌, ◌^◌, ◌<◌, ◌≤◌, ◌≡◌, refl, arith, true, false, Bool, List, [], ◌∷◌, length, none,
  some, Option, inl, inr, not, ◌||◌, leb, ltb, ◌==◌, Bool-cases, Option-cases, set,
}
use vcam_kmod.Base.Int.{ℤ, pos, ltb_ℤ}
use vcam_kmod.Kernel.{Kernel, Result, ok, err}
use vcam_kmod.Logic.Range.{Decision, deliver, wrap, drop, range_decide}
use vcam_kmod.Pool.State.{
  Pool, Slot, init, slot_at, is_filled, is_held, is_unbound, is_idle, idle, held, max_slots,
}
use vcam_kmod.Uapi.{Format}
use vcam_kmod.Logic.Format.Laws.{format_validate-err}
use vcam_kmod.Pool.Control
use vcam_kmod.Pool.Invariant.Find.{find_held-some, find_unbound-some}
use vcam_kmod.Pool.Producer.{
  submit, submitted, register, register_got, register_free, registered, find_unbound, unregister,
  unregistered,
}
use vcam_kmod.Pool.Consumer.{
  Taken, take, take_best, take_in_range, take_got, oldest, count_wrap, hold, dropped, find_held,
  release, acquire, dequeue,
}
use vcam_kmod.Pool.Step.{Call, step, run}
use vcam_kmod.Pool.Invariant.Defs.{IsValid}
use vcam_kmod.Pool.Safety.{init-IsValid, step-IsValid}
use vcam_kmod.Pool.Change.Keeps.{PoolSlots}
use vcam_kmod.Pool.Change.Defs.{IsOldest}
use vcam_kmod.Pool.Change.Consumer.{oldest-IsOldest}
use vcam_kmod.Pool.Conserved.Counts.{
  one_if, filled_count, held_count, filled_count-set, held_count-set,
}
use vcam_kmod.Pool.Conserved.Defs.{IsConserved}
use vcam_kmod.Pool.Conserved.Producer.{
  submit-IsConserved, unregister-IsConserved, register-IsConserved,
}
use vcam_kmod.Pool.Conserved.Consumer.{take_best-IsConserved, release-IsConserved}

module _ (p : Pool) (v : PoolSlots p) (b : IsConserved p) where
  module _ (k : Kernel) (w : k.World) where
    pub step-IsConserved : (c : Call) → IsConserved (step k c p w).1
    unfolding step take acquire dequeue Control.poll Control.set_range Control.set_pose
        Control.set_backend Control.attach
    step-IsConserved (Call.register fd fmt) = register-IsConserved p v b k w fd fmt
    step-IsConserved (Call.unregister i) = unregister-IsConserved p v b k w i
    step-IsConserved (Call.submit i q t rot flags) = submit-IsConserved p v b i q t rot flags
    step-IsConserved Call.acquire = take_best-IsConserved p v b k w (oldest p) true refl
    step-IsConserved Call.dequeue = take_best-IsConserved p v b k w (oldest p) false refl
    step-IsConserved (Call.release q) = release-IsConserved p v b q
    step-IsConserved Call.peek = b
    step-IsConserved Call.poll = ground (arith, b.came, b.taken, b.bound, b.wraps)
    step-IsConserved (Call.set_range r) = ground (arith, b.came, b.taken, b.bound, b.wraps)
    step-IsConserved (Call.set_pose r) = ground (arith, b.came, b.taken, b.bound, b.wraps)
    step-IsConserved (Call.set_backend x) = ground (arith, b.came, b.taken, b.bound, b.wraps)
    step-IsConserved Call.attach = ground (arith, b.came, b.taken, b.bound, b.wraps)
    step-IsConserved Call.get_stats = b

module _ (k : Kernel) where
  pub run-IsConserved :
      (cs : List (Call × k.World)) (p : Pool)
      → IsValid p
      → IsConserved p
      → IsConserved (run k cs p).1
  unfolding run
  run-IsConserved [] p v b = b
  run-IsConserved ((c, w) ∷ cs) p v b =
      run-IsConserved cs (step k c p w).1 (step-IsValid k c w v) (step-IsConserved p v.pool b k w c)

  fresh-IsConserved : (p : Pool) (n : ℕ) → 0 < n → n ≤ max_slots → IsConserved (init p n).1
  unfolding init filled_count held_count
  fresh-IsConserved p n lo hi =
      let good : (n == 0 || ltb max_slots n) ≡ false = ground arith in
      rw good (record { came = refl; taken = refl; bound = refl; wraps = refl })

  -- From a pool that `vcam_pool_init` has set up with 1 to 8 slots, through any calls, the counters
  -- and the slots agree: modulo 2 ^ 64, the frames submitted are those dequeued, those dropped as
  -- late and those that wait, and the frames dequeued are those released and those held; `bound` is
  -- `dequeued`, and `looped` is `wraps_due`.
  pub init-IsConserved :
      (cs : List (Call × k.World)) (p : Pool) (n : ℕ)
      → 0 < n
      → n ≤ max_slots
      → IsConserved (run k cs (init p n).1).1
  init-IsConserved cs p n lo hi =
      run-IsConserved cs (init p n).1 (init-IsValid p n lo hi).1 (fresh-IsConserved p n lo hi)
