-- ===== src/Pool/Answers.antt =====
-- The conditions under which calls of src/vcam_pool.c are accepted.
use vcam_kmod.Base.{ℕ, ◌<◌, ◌≡◌, ◌↔◌, ◌⊎◌, arith, set}
use vcam_kmod.Base.Int.{ℤ, pos, ◌≤ℤ◌}
use vcam_kmod.Uapi.{Range}
use vcam_kmod.Kernel.{ok}
use vcam_kmod.Logic.Range.{to_end}
use vcam_kmod.Pool.State.{Pool, slot_at, idle}
use vcam_kmod.Pool.Producer.{submit, submitted}
use vcam_kmod.Pool.Control.{set_range}

-- A frame can be submitted to an idle slot, with a number beyond the last one.
pub record Submittable (p : Pool) (i n : ℕ) : Type 0 where
  pub in_range : i < p.nslots
  pub is_free : (slot_at p.slot i).state ≡ idle
  pub is_new : p.last_submitted_seq < n

pub submit-ok :
    (p : Pool) (i n : ℕ) (t : ℤ) (rot flags : ℕ)
    → (submit p i n t rot flags).0 ≡ ok tt
    → Submittable p i n
      × ((submit p i n t rot flags).1.slot
          ≡ set p.slot i (submitted p (slot_at p.slot i) n t rot flags))
      × ((submit p i n t rot flags).1.last_submitted_seq ≡ n)
unfolding submit
submit-ok p i n t rot flags e = ground arith

-- A frame is accepted exactly when its slot is one of the pool's, the slot is idle, and its number
-- is greater than the pool's last submitted one.
pub submit_iff :
    (p : Pool) (i n : ℕ) (t : ℤ) (rot flags : ℕ)
    → ((submit p i n t rot flags).0 ≡ ok tt) ↔ Submittable p i n
unfolding submit
submit_iff p i n t rot flags =
    (λ e. (submit-ok p i n t rot flags e).0, λ s. ground (arith, s.in_range, s.is_free, s.is_new))

-- A play range is accepted exactly when it does not begin before 0, and has no end or ends no
-- earlier than it begins.
pub set_range_iff :
    (p : Pool) (r : Range)
    → ((set_range p r).0 ≡ ok tt)
      ↔ ((pos 0 ≤ℤ r.begin_ns) × ((r.end_ns ≡ to_end) ⊎ (r.begin_ns ≤ℤ r.end_ns)))
unfolding set_range
set_range_iff p r = (λ e. ground arith, λ s. ground arith)
