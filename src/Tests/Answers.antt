-- ===== src/Tests/Answers.antt =====
-- The theorems on the answers of the pool, at concrete pools.
use vcam_kmod.Base.{◌≡◌, ◌<◌, ◌↔◌, refl, arith, some, [], ◌∷◌, inr}
use vcam_kmod.Base.Int.{pos}
use vcam_kmod.Kernel.{ok}
use vcam_kmod.Uapi.{Dequeue}
use vcam_kmod.Logic.Format.{format_validate}
use vcam_kmod.Logic.Pose.{pose_apply}
use vcam_kmod.Shim.{dma_buf_get}
use vcam_kmod.Pool.State.{init, zero_pool, slot_at, idle}
use vcam_kmod.Pool.Step.{Call, step, run}
use vcam_kmod.Pool.Producer.{submit, register}
use vcam_kmod.Pool.Consumer.{dequeue, take, acquire}
use vcam_kmod.Pool.Control.{poll}
use vcam_kmod.Pool.Delivery.{IsHandedOut, dequeue-ok, dequeue-delivers}
use vcam_kmod.Pool.Numbers.{Above, init-submit_iff}
use vcam_kmod.Pool.Fifo.Order.{all_accepted}
use vcam_kmod.Pool.Admission.{IsOk, Admissible, register_iff}
use vcam_kmod.Pool.Reported.{poll-once}
use vcam_kmod.Tests.{
  small, kernel, world, with_world, two_calls, busy_pool, busy_pool-IsValid, busy_slots,
}

-- What the next dequeue of the busy pool answers.
abbrev next_dequeue : Dequeue
next_dequeue = record {
  seq = 7;
  slot = 1;
  resolved_angle_deg = 0;
  resolved_mirror = 0;
  reserved = 0;
}

busy_dequeue : (dequeue kernel busy_pool world).0 ≡ ok next_dequeue
unfolding run init step dequeue take submit register format_validate dma_buf_get pose_apply
busy_dequeue = refl

busy_acquire : (acquire kernel busy_pool world).0 ≡ ok (7, some 4)
unfolding run init step dequeue take acquire submit register format_validate dma_buf_get
busy_acquire = refl

busy_loops : 0 < busy_pool.loop
unfolding run init step dequeue take submit register format_validate dma_buf_get
busy_loops = omega arith

dequeue-ok_example :
    IsHandedOut busy_pool (dequeue kernel busy_pool world).1 1
    × (7 ≡ (slot_at busy_pool.slot 1).seq)
    × (0 ≡ (slot_at busy_pool.slot 1).resolved_angle)
    × (0 ≡ (slot_at busy_pool.slot 1).resolved_mirror)
    × ((dequeue kernel busy_pool world).2 ≡ world)
dequeue-ok_example = dequeue-ok kernel busy_pool world busy_pool-IsValid.pool busy_dequeue

dequeue-delivers_example : (d : Dequeue) × ((dequeue kernel busy_pool world).0 ≡ ok d)
dequeue-delivers_example =
    dequeue-delivers kernel busy_pool world 1 (omega (arith, busy_slots.4)) busy_slots.2
      (inr busy_loops)

-- The pool has accepted the frames 5 and 7.
init-submit_iff_example :
    let (tr, q) = run kernel (with_world two_calls) (init zero_pool 2).1 in
    ((submit q 1 9 (pos 3000) 0 0).0 ≡ ok tt)
    ↔ ((1 < q.nslots) × ((slot_at q.slot 1).state ≡ idle) × (0 < 9) × Above 9 (all_accepted tr))
init-submit_iff_example =
    init-submit_iff kernel (with_world two_calls) zero_pool 2 (omega arith) (omega arith) 1 9
      (pos 3000) 0 0

register_iff_example :
    IsOk (register kernel busy_pool (pos 4) small world).0
    ↔ Admissible kernel busy_pool world (pos 4) small
register_iff_example = register_iff kernel busy_pool world (pos 4) small

poll-once_example :
    let cs = with_world (Call.dequeue ∷ Call.poll ∷ []) in
    let d = (poll (run kernel cs (poll busy_pool).1).1).0 in
    (d.width_delta ≡ 0) × (d.height_delta ≡ 0) × (d.format ≡ 0)
poll-once_example =
    poll-once kernel busy_pool (with_world (Call.dequeue ∷ Call.poll ∷ [])) (refl, (refl, tt))
