-- ===== src/Pool/Change/Step.antt =====
-- The change of a call.
use vcam_kmod.Base.{refl, arith}
use vcam_kmod.Kernel.{Kernel}
use vcam_kmod.Pool.State.{Pool}
use vcam_kmod.Pool.Step.{
  Call, register, unregister, submit, acquire, dequeue, release, peek, poll, set_range, set_pose,
  set_backend, attach, get_stats, step,
}
use vcam_kmod.Pool.Change.Defs.{Change, keep}
use vcam_kmod.Pool.Change.Producer.{submit-Change, unregister-Change, register-Change}
use vcam_kmod.Pool.Change.Consumer.{acquire-Change, dequeue-Change, release-Change}
use vcam_kmod.Pool.Change.Control.{
  poll-Change, set_range-Change, set_pose-Change, set_backend-Change, attach-Change,
}

pub step-Change :
    (k : Kernel) (c : Call) (p : Pool) (w : k.World) → Change c (step k c p w).0 p (step k c p w).1
unfolding step
step-Change k (register fd fmt) p w = register-Change k p w fd fmt
step-Change k (unregister i) p w = unregister-Change k p w i
step-Change k (submit i q t rot flags) p w = submit-Change p i q t rot flags
step-Change k acquire p w = acquire-Change k p w
step-Change k dequeue p w = dequeue-Change k p w
step-Change k (release q) p w = release-Change p q
step-Change k peek p w = keep refl (ground arith) (refl, refl)
step-Change k poll p w = poll-Change p
step-Change k (set_range r) p w = set_range-Change p r
step-Change k (set_pose r) p w = set_pose-Change p r
step-Change k (set_backend b) p w = set_backend-Change p b
step-Change k attach p w = attach-Change p
step-Change k get_stats p w = keep refl (ground arith) (refl, refl)
