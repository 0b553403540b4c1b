-- ===== src/Pool/Change/Control.antt =====
-- The setters and the poll of src/vcam_pool.c, as changes.
use vcam_kmod.Base.{ℕ, arith, refl}
use vcam_kmod.Uapi.{Range, Pose}
use vcam_kmod.Kernel.{ok}
use vcam_kmod.Pool.State.{Pool}
use vcam_kmod.Pool.Control.{poll, set_range, set_pose, set_backend, attach}
use vcam_kmod.Pool.Step.{Call, done, polled}
use vcam_kmod.Pool.Change.Defs.{Change, keep}

module _ (p : Pool) where
  pub poll-Change : Change Call.poll (polled (poll p).0) p (poll p).1
  unfolding poll
  poll-Change = keep refl (ground arith) (refl, refl)

  pub set_range-Change :
      (r : Range) → Change (Call.set_range r) (done (set_range p r).0) p (set_range p r).1
  unfolding set_range
  set_range-Change r = keep (ground arith) (ground arith) (ground arith)

  pub set_pose-Change :
      (r : Pose) → Change (Call.set_pose r) (done (set_pose p r).0) p (set_pose p r).1
  unfolding set_pose
  set_pose-Change r = keep (ground arith) (ground arith) (ground arith)

  pub set_backend-Change :
      (b : ℕ) → Change (Call.set_backend b) (done (set_backend p b).0) p (set_backend p b).1
  unfolding set_backend
  set_backend-Change b = keep (ground arith) (ground arith) (ground arith)

  pub attach-Change : Change Call.attach (done (ok tt)) p (attach p)
  unfolding attach
  attach-Change = keep refl (ground arith) (refl, refl)
