-- ===== src/Pool/Invariant/Settings.antt =====
-- The settings part of the invariant under each operation.
use vcam_kmod.Base.{arith}
use vcam_kmod.Kernel.{Kernel}
use vcam_kmod.Pool.State.{Pool}
use vcam_kmod.Pool.Producer.{find_unbound}
use vcam_kmod.Pool.Consumer.{find_held, oldest}
use vcam_kmod.Pool.Producer
use vcam_kmod.Pool.Consumer
use vcam_kmod.Pool.Control
use vcam_kmod.Pool.Step.{Call, register, step}
use vcam_kmod.Pool.Invariant.Defs.{IsControl}

module _ (k : Kernel) (p : Pool) (v : IsControl p) where
  pub step-IsControl : (c : Call) (w : k.World) → IsControl (step k c p w).1
  unfolding step Producer.register Producer.unregister Producer.submit Consumer.take
      Consumer.acquire Consumer.dequeue Consumer.release Control.poll Control.set_range
      Control.set_pose Control.set_backend Control.attach
  step-IsControl (register fd fmt) w = ground arith
  step-IsControl c w = ground arith
