-- ===== src/Threads/Implements/Leaves.antt =====
-- The end of a critical section of src/vcam_pool.c.
use vcam_kmod.Base.{◌≡◌, refl, subst}
use vcam_kmod.Kernel.{Kernel}
use vcam_kmod.Pool.State.{Pool, slot_at}
use vcam_kmod.Pool.Step.{Call, Reply, step}
use vcam_kmod.Pool.Lifecycle.{step-held}
use vcam_kmod.Threads.Prog.{Prog, unlock, write}
use vcam_kmod.Threads.Discipline.{Inside, Does, Guarded}

module _ {k : Kernel} {c : Call} {p : Pool} where
  -- What a call does in one piece leaves a held slot alone.
  pub Does-Guarded : {r : Reply} {q : Pool} → Does k c p r q → Guarded c p q
  Does-Guarded d v j h n =
      subst (λ q. slot_at q.slot j ≡ slot_at p.slot j) d.pool (step-held k p v d.world c j h n)

  module _ (w : k.World) (r : Reply) {q : Pool} (e : (step k c p w).0 ≡ r)
      (f : (step k c p w).1 ≡ q) where
    pub leaves : Inside k c p q (unlock (Prog.done r))
    leaves = (r, record { world = w; reply = e; pool = f }, refl, refl)

    -- With a last write.
    pub finishes : Inside k c p p (write q (unlock (Prog.done r)))
    finishes = (Does-Guarded (record { world = w; reply = e; pool = f }), leaves)
