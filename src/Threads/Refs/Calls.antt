-- ===== src/Threads/Refs/Calls.antt =====
-- The references that each call of src/vcam_pool.c holds on its way.
use vcam_kmod.Base.{ℕ, inl, inr, refl, not, ◌&&◌, Bool-cases, ◌==◌}
use vcam_kmod.Base.Int.{pos, ltb_ℤ, eqb_ℤ}
use vcam_kmod.Uapi.{Range, Pose}
use vcam_kmod.Kernel.{Kernel, CountsRefs}
use vcam_kmod.Logic.Pose.{has_flag}
use vcam_kmod.Logic.Range.{to_end}
use vcam_kmod.Pool.State.{backend_bridge, backend_pipeline}
use vcam_kmod.Pool.Control.{unknown_flags}
use vcam_kmod.Pool.Control
use vcam_kmod.Pool.Step.{Call}
use vcam_kmod.Threads.Calls.{program, set_range, set_pose, set_backend}
use vcam_kmod.Threads.Refs.Defs.{nothing_held, Carries}
use vcam_kmod.Threads.Refs.Producer.{register-Carries, unregister-Carries, submit-Carries}
use vcam_kmod.Threads.Refs.Consumer.{
  acquire-Carries, dequeue-Carries, release-Carries, peek-Carries,
}

module _ (k : Kernel) {limit : ℕ} (laws : CountsRefs k limit) where
  set_range-Carries : (r : Range) → Carries k limit nothing_held (set_range k r)
  unfolding set_range
  set_range-Carries r =
      elim (Bool-cases (not (eqb_ℤ r.end_ns to_end) && ltb_ℤ r.end_ns r.begin_ns)) [
        | inl a ↦ rw a (λ b. refl)
        | inr a ↦ elim (Bool-cases (ltb_ℤ r.begin_ns (pos 0))) [
          | inl c ↦ rw (a, c) (λ b. refl)
          | inr c ↦ rw (a, c) (λ p v. (nothing_held, λ b. refl, λ b. refl))
        ]
      ]

  set_pose-Carries : (r : Pose) → Carries k limit nothing_held (set_pose k r)
  unfolding set_pose
  set_pose-Carries r = elim (Bool-cases (has_flag r.flags unknown_flags)) [
    | inl a ↦ rw a (λ b. refl)
    | inr a ↦ rw a (λ p v. (nothing_held, λ b. refl, λ b. refl))
  ]

  set_backend-Carries : (c : ℕ) → Carries k limit nothing_held (set_backend k c)
  unfolding set_backend
  set_backend-Carries c =
      elim (Bool-cases (not (c == backend_bridge) && not (c == backend_pipeline))) [
        | inl a ↦ rw a (λ b. refl)
        | inr a ↦ rw a (λ p v. (nothing_held, λ b. refl, λ b. refl))
      ]

  pub program-Carries : (c : Call) → Carries k limit nothing_held (program k c)
  unfolding program Control.poll Control.attach
  program-Carries (Call.register fd fmt) = register-Carries k laws fd fmt
  program-Carries (Call.unregister i) = unregister-Carries k laws i
  program-Carries (Call.submit i q t rot flags) = submit-Carries k laws i q t rot flags
  program-Carries Call.acquire = acquire-Carries k laws
  program-Carries Call.dequeue = dequeue-Carries k laws
  program-Carries (Call.release q) = release-Carries k laws q
  program-Carries Call.peek = peek-Carries k laws
  program-Carries (Call.set_range r) = set_range-Carries r
  program-Carries (Call.set_pose r) = set_pose-Carries r
  program-Carries (Call.set_backend b) = set_backend-Carries b
  program-Carries Call.poll = λ p v. (nothing_held, λ b. refl, λ b. refl)
  program-Carries Call.attach = λ p v. (nothing_held, λ b. refl, λ b. refl)
  program-Carries Call.get_stats = λ p v. (nothing_held, λ b. refl, λ b. refl)
