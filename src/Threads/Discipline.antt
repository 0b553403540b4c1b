-- ===== src/Threads/Discipline.antt =====
-- How a call of src/vcam_pool.c uses the mutex, as a predicate on its program.
use vcam_kmod.Base.{ℕ, ◌≡◌, ◌≢◌}
use vcam_kmod.Uapi.{Dequeue}
use vcam_kmod.Kernel.{Kernel, ok}
use vcam_kmod.Pool.State.{Pool, slot_at, held}
use vcam_kmod.Pool.Invariant.Defs.{IsValid}
use vcam_kmod.Pool.Step.{Call, Reply, step, frame}
use vcam_kmod.Threads.Prog.{done, lock, unlock, read, write, service}
use vcam_kmod.Threads.Calls.{Thread}

-- A reply without the pose of its frame, which `vcam_pool_dequeue` reads outside the critical
-- section.
abbrev pub told : Reply → Reply
told (frame (ok d)) = frame (ok (record d { resolved_angle_deg = 0; resolved_mirror = 0 }))
told r = r

-- The consumer has the frame of a dequeue in its slot, with the pose that the dequeue reports.
pub record Shown (d : Dequeue) (p : Pool) : Type 0 where
  pub state : (slot_at p.slot d.slot).state ≡ held
  pub seq : (slot_at p.slot d.slot).seq ≡ d.seq
  pub angle : (slot_at p.slot d.slot).resolved_angle ≡ d.resolved_angle_deg
  pub mirror : (slot_at p.slot d.slot).resolved_mirror ≡ d.resolved_mirror

abbrev pub Shows : Reply → Pool → Type 0
Shows r p = (d : Dequeue) → r ≡ frame (ok d) → Shown d p

-- In the critical section of call `c`, entered at `p`, the pool becomes `q`: a slot that the consumer
-- holds is left alone, unless its frame is released.
abbrev pub Guarded : Call → Pool → Pool → Type 0
Guarded c p q =
    IsValid p
    → (j : ℕ) → (slot_at p.slot j).state ≡ held
    → c ≢ Call.release (slot_at p.slot j).seq
    → slot_at q.slot j ≡ slot_at p.slot j

module _ (k : Kernel) (c : Call) where
  -- In one piece, in some state of the machine, the call takes the pool from `p` to `q` and answers
  -- `r`.
  pub record Does (p : Pool) (r : Reply) (q : Pool) : Type 0 where
    pub world : k.World
    pub reply : (step k c p world).0 ≡ r
    pub pool : (step k c p world).1 ≡ q

  -- After the critical section: no writes, and the answer is `r`, but for the pose.
  abbrev pub After : Reply → Thread k → Type 0
  After r (done s) = told r ≡ told s
  After r (lock t) = ⊥
  After r (unlock t) = ⊥
  After r (read f) = (p : Pool) → After r (f p)
  After r (write p t) = ⊥
  After r (service e f) = (w : k.World) → After r (f w)

  -- The answer is `r`, with its pose, if every pool that is read has the frame in its slot.
  abbrev pub Exactly : Reply → Thread k → Type 0
  Exactly r (done s) = r ≡ s
  Exactly r (lock t) = ⊥
  Exactly r (unlock t) = ⊥
  Exactly r (read f) = (p : Pool) → Shows r p → Exactly r (f p)
  Exactly r (write p t) = ⊥
  Exactly r (service e f) = (w : k.World) → Exactly r (f w)

  -- In the critical section, entered at `p`, with the pool now at `q`.
  abbrev pub Inside : Pool → Pool → Thread k → Type 0
  Inside p q (done r) = ⊥
  Inside p q (lock t) = ⊥
  Inside p q (unlock t) = (r : Reply) × Does p r q × After r t × Exactly r t
  Inside p q (read f) = Inside p q (f q)
  Inside p q (write q' t) = Guarded c p q' × Inside p q' t
  Inside p q (service e f) = (w : k.World) → Inside p q (f w)

  -- Before the critical section: no access to the pool; an answer here is right for every pool.
  abbrev pub Before : Thread k → Type 0
  Before (done r) = (p : Pool) → Does p r p
  Before (lock t) = (p : Pool) → Inside p p t
  Before (unlock t) = ⊥
  Before (read f) = ⊥
  Before (write p t) = ⊥
  Before (service e f) = (w : k.World) → Before (f w)
