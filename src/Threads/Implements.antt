-- ===== src/Threads/Implements.antt =====
-- Every call of src/vcam_pool.c, one critical section each.
pub mod Leaves
mod Producer
mod Consumer
use vcam_kmod.Base.{ℕ, inl, inr, refl, not, ◌||◌, ◌&&◌, Bool-cases, ◌==◌}
use vcam_kmod.Base.Int.{pos, ltb_ℤ, eqb_ℤ}
use vcam_kmod.Uapi.{Range, Pose}
use vcam_kmod.Kernel.{Kernel, ok, err, einval}
use vcam_kmod.Logic.Pose.{has_flag}
use vcam_kmod.Logic.Range.{to_end}
use vcam_kmod.Pool.State.{backend_bridge, backend_pipeline}
use vcam_kmod.Pool.Control.{unknown_flags}
use vcam_kmod.Pool.Control
use vcam_kmod.Pool.Step.{Call, Reply, step, polled, counted}
use vcam_kmod.Threads.Calls.{program, set_range, set_pose, set_backend}
use vcam_kmod.Threads.Discipline.{Does, Inside, Before}
use vcam_kmod.Threads.Implements.Leaves.{leaves, finishes}
use vcam_kmod.Threads.Implements.Producer.{register-Before, unregister-Before, submit-Before}
use vcam_kmod.Threads.Implements.Consumer.{
  acquire-Before, dequeue-Before, release-Before, peek-Before,
}

module _ (k : Kernel) (w : k.World) where
  set_range-Before : (r : Range) → Before k (Call.set_range r) (set_range k r)
  unfolding step set_range Control.set_range
  set_range-Before r =
      elim (Bool-cases (not (eqb_ℤ r.end_ns to_end) && ltb_ℤ r.end_ns r.begin_ns)) [
        | inl a ↦ rw a (λ p. record { world = w; reply = rw a refl; pool = rw a refl })
        | inr a ↦ elim (Bool-cases (ltb_ℤ r.begin_ns (pos 0))) [
          | inl b ↦
              rw (a, b) (λ p. record { world = w; reply = rw (a, b) refl; pool = rw (a, b) refl })
          | inr b ↦
              rw (a, b) (λ p. finishes w (Reply.done (ok tt)) (rw (a, b) refl) (rw (a, b) refl))
        ]
      ]

  set_pose-Before : (r : Pose) → Before k (Call.set_pose r) (set_pose k r)
  unfolding step set_pose Control.set_pose
  set_pose-Before r = elim (Bool-cases (has_flag r.flags unknown_flags)) [
    | inl a ↦ rw a (λ p. record { world = w; reply = rw a refl; pool = rw a refl })
    | inr a ↦ rw a (λ p. finishes w (Reply.done (ok tt)) (rw a refl) (rw a refl))
  ]

  set_backend-Before : (b : ℕ) → Before k (Call.set_backend b) (set_backend k b)
  unfolding step set_backend Control.set_backend
  set_backend-Before b =
      elim (Bool-cases (not (b == backend_bridge) && not (b == backend_pipeline))) [
        | inl a ↦ rw a (λ p. record { world = w; reply = rw a refl; pool = rw a refl })
        | inr a ↦ rw a (λ p. finishes w (Reply.done (ok tt)) (rw a refl) (rw a refl))
      ]

  pub program-Before : (c : Call) → Before k c (program k c)
  unfolding step program Control.poll Control.attach Control.get_stats
  program-Before (Call.register fd fmt) = register-Before k w fd fmt
  program-Before (Call.unregister i) = unregister-Before k w i
  program-Before (Call.submit i q t rot flags) = submit-Before k w i q t rot flags
  program-Before Call.acquire = acquire-Before k w
  program-Before Call.dequeue = dequeue-Before k w
  program-Before (Call.release q) = release-Before k w q
  program-Before Call.peek = peek-Before k w
  program-Before Call.poll = λ p. finishes w (polled (Control.poll p).0) refl refl
  program-Before (Call.set_range r) = set_range-Before r
  program-Before (Call.set_pose r) = set_pose-Before r
  program-Before (Call.set_backend b) = set_backend-Before b
  program-Before Call.attach = λ p. finishes w (Reply.done (ok tt)) refl refl
  program-Before Call.get_stats = λ p. leaves w (counted p.stats) refl refl
