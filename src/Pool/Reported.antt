-- ===== src/Pool/Reported.antt =====
-- The delta poll of src/vcam_pool.c.
use vcam_kmod.Base.{◌≡◌, arith, Bool, true, false, List, [], ◌∷◌}
use vcam_kmod.Kernel.{Kernel}
use vcam_kmod.Pool.State.{Pool}
use vcam_kmod.Pool.Producer
use vcam_kmod.Pool.Consumer
use vcam_kmod.Pool.Control.{poll, set_range, set_pose, set_backend, attach}
use vcam_kmod.Pool.Step.{Call, step, run}

-- The call registers no buffer.
abbrev pub is_quiet : Call → Bool
is_quiet (Call.register _ _) = false
is_quiet _ = true

-- There is nothing to report.
pub record Reported (p : Pool) : Type 0 where
  pub width : p.last_polled_w ≡ p.reported_w
  pub height : p.last_polled_h ≡ p.reported_h
  pub format : p.reported_format ≡ 0

module _ (k : Kernel) where
  abbrev pub Quiet : List (Call × k.World) → Type 0
  Quiet [] = Unit {0}
  Quiet ((c, _) ∷ cs) = (is_quiet c ≡ true) × Quiet cs

  poll-Reported : (p : Pool) → Reported (poll p).1
  unfolding poll
  poll-Reported p = ground arith

  step-Reported :
      (p : Pool) (w : k.World) (c : Call)
      → is_quiet c ≡ true
      → Reported p
      → Reported (step k c p w).1
  unfolding step Producer.unregister Producer.submit Consumer.take Consumer.acquire Consumer.dequeue
      Consumer.release poll set_range set_pose set_backend attach
  step-Reported p w c h e = ground (arith, e.width, e.height, e.format)

  run-Reported :
      (cs : List (Call × k.World)) (p : Pool) → Quiet cs → Reported p → Reported (run k cs p).1
  unfolding run
  run-Reported [] p h e = e
  run-Reported ((c, w) ∷ cs) p (h, hs) e = run-Reported cs _ hs (step-Reported p w c h e)

  -- A change is reported once: after a poll and any calls that register no buffer, the next poll
  -- reports no width, no height and no format.
  pub poll-once :
      (p : Pool) (cs : List (Call × k.World))
      → Quiet cs
      → let d = (poll (run k cs (poll p).1).1).0 in
        (d.width_delta ≡ 0) × (d.height_delta ≡ 0) × (d.format ≡ 0)
  unfolding poll
  poll-once p cs h =
      let e = run-Reported cs (poll p).1 h (poll-Reported p) in
      ground (arith, e.width, e.height, e.format)
