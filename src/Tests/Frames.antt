-- ===== src/Tests/Frames.antt =====
-- The theorems on slots and frames, at concrete pools.
use vcam_kmod.Base.{ℕ, ◌≡◌, ◌≢◌, refl, arith, [], ◌∷◌, ◌++◌}
use vcam_kmod.Base.Int.{pos}
use vcam_kmod.Kernel.{ok}
use vcam_kmod.Logic.Pose.{pose_apply}
use vcam_kmod.Logic.Format.{format_validate}
use vcam_kmod.Uapi.{Pose}
use vcam_kmod.Shim.{dma_buf_get}
use vcam_kmod.Pool.State.{init, zero_pool, slot_at, idle}
use vcam_kmod.Pool.Step.{Call, step, run}
use vcam_kmod.Pool.Producer.{submit, register}
use vcam_kmod.Pool.Consumer.{dequeue, take, release}
use vcam_kmod.Pool.Control.{set_pose}
use vcam_kmod.Pool.Invariant.Defs.{IsValid}
use vcam_kmod.Pool.Safety.{run-IsValid}
use vcam_kmod.Pool.Lifecycle.{Moves, step-Moves, step-held}
use vcam_kmod.Pool.Frozen.{dequeue-Frozen}
use vcam_kmod.Pool.Fifo.Pending.{pending}
use vcam_kmod.Pool.Fifo.Order.{all_accepted, all_delivered}
use vcam_kmod.Pool.Fifo.Lossless.{init-queue}
use vcam_kmod.Pool.Returned.{release-held}
use vcam_kmod.Tests.{
  kernel, world, with_world, two_calls, busy_pool, busy_pool-IsValid, busy_slots, posed_pool,
  posed_pool-IsValid, posed_dequeue,
}

step-held_example :
    slot_at (step kernel (Call.submit 0 9 (pos 3000) 0 0) busy_pool world).1.slot 0
    ≡ slot_at busy_pool.slot 0
step-held_example =
    step-held kernel busy_pool busy_pool-IsValid world (Call.submit 0 9 (pos 3000) 0 0) 0
      busy_slots.0 (λ e. cc)

step-Moves_example : Moves Call.dequeue busy_pool (step kernel Call.dequeue busy_pool world).1 1
step-Moves_example = step-Moves kernel busy_pool busy_pool-IsValid world Call.dequeue 1

init-queue_example :
    let (tr, q) = run kernel (with_world two_calls) (init zero_pool 2).1 in
    all_accepted tr ≡ all_delivered tr ++ pending q.slot
init-queue_example =
    init-queue kernel (with_world two_calls) zero_pool 2 (omega arith) (omega arith)
      (refl, (refl, (refl, (refl, (refl, tt)))))

run-IsValid_example : IsValid (run kernel (with_world two_calls) posed_pool).1
run-IsValid_example = run-IsValid kernel (with_world two_calls) posed_pool-IsValid

abbrev plain : Pose
plain = record { flags = 0; rotation_deg = 90; media_rotation_deg = pos 0; reserved = 0 }

posed_accepts : (submit posed_pool 0 5 (pos 1000) 0 0).0 ≡ ok tt
unfolding init run step submit register format_validate dma_buf_get set_pose
posed_accepts = refl

posed_delivers :
    (dequeue kernel
      (run kernel
        (with_world (Call.set_pose plain ∷ []))
        (submit posed_pool 0 5 (pos 1000) 0 0).1).1
      world).0
    ≡ ok posed_dequeue
unfolding init run step submit register format_validate dma_buf_get set_pose dequeue take pose_apply
posed_delivers = refl

-- The pose changes between the submission and the dequeue.
dequeue-Frozen_example :
    (posed_dequeue.resolved_angle_deg ≡ (pose_apply posed_pool.pose).angle_deg)
    × (posed_dequeue.resolved_mirror ≡ (pose_apply posed_pool.pose).mirror)
dequeue-Frozen_example =
    dequeue-Frozen kernel posed_pool 0 5 (pos 1000) 0 0 (with_world (Call.set_pose plain ∷ []))
      world posed_pool-IsValid posed_accepts posed_delivers refl

release-held_example :
    let (r, q) = release busy_pool (slot_at busy_pool.slot 0).seq in
    (r ≡ ok tt)
    × (slot_at q.slot 0 ≡ record (slot_at busy_pool.slot 0) { state = idle })
    × ((i : ℕ) → i ≢ 0 → slot_at q.slot i ≡ slot_at busy_pool.slot i)
release-held_example = release-held busy_pool 0 busy_pool-IsValid busy_slots.0
