-- ===== src/Tests/Rules.antt =====
-- The theorems on the pose, the formats and the ioctls, at concrete values.
use vcam_kmod.Base.{◌+◌, ◌%◌, ◌^◌, ◌-◌, ◌≡◌, ◌≢◌, ◌<◌, ◌↔◌, refl, arith, true, false, some}
use vcam_kmod.Base.Int.{pos, negsuc}
use vcam_kmod.Kernel.{ok, err, efault}
use vcam_kmod.Uapi.{Pose, Dequeue}
use vcam_kmod.Uapi.Ioc.{dequeue_frame, poll_delta, number}
use vcam_kmod.Logic.Pose.{pose_apply}
use vcam_kmod.Logic.Pose.Laws.{pose_apply-auto, pose_apply-overflow}
use vcam_kmod.Logic.Format.{format_validate}
use vcam_kmod.Logic.Format.Laws.{IsFormat, format_validate_iff}
use vcam_kmod.Shim.{dma_buf_get}
use vcam_kmod.Pool.State.{init, slot_at, held}
use vcam_kmod.Pool.Step.{step, run}
use vcam_kmod.Pool.Producer.{register}
use vcam_kmod.Pool.Producer
use vcam_kmod.Pool.Consumer.{dequeue, take}
use vcam_kmod.Ctrl.Dispatch.{File, decode, ioctl}
use vcam_kmod.Ctrl.Serves.{Dispatched, ioctl-Dispatched}
use vcam_kmod.Ctrl.Faults.{ioctl-dequeue-fault}
use vcam_kmod.Tests.{small, a_pose, kernel, world, busy_pool, busy_pool-IsValid}

pose_apply-auto_example :
    ((pose_apply a_pose).angle_deg < 360)
    × (((pose_apply a_pose).angle_deg + 90) % 360 ≡ 270 % 360)
    × ((pose_apply a_pose).mirror ≡ 1)
pose_apply-auto_example = pose_apply-auto a_pose refl (ground arith)

-- 270 + 2 ^ 31 is not an `s32`.
abbrev lowest_pose : Pose
lowest_pose = record {
  flags = 2;
  rotation_deg = 0;
  media_rotation_deg = negsuc (2 ^ 31 - 1);
  reserved = 0;
}

pose_apply-overflow_example : ((pose_apply lowest_pose).angle_deg + 0) % 360 ≢ (270 + 2 ^ 31) % 360
pose_apply-overflow_example =
    pose_apply-overflow lowest_pose refl (ground arith) (λ s. ground arith)

abbrev plain_pose : Pose
plain_pose = record { flags = 1; rotation_deg = 180; media_rotation_deg = pos 0; reserved = 0 }

format_validate_iff_example : (format_validate small ≡ ok tt) ↔ IsFormat small
format_validate_iff_example = format_validate_iff small

decodes_poll : decode 0x80107609 ≡ some poll_delta
unfolding decode
decodes_poll = refl

abbrev opened : File
opened = record { private_data = true }

abbrev unready : File
unready = record { private_data = false }

-- A dequeue to address 8, on a file with a pool.
ioctl-Dispatched_example :
    Dispatched kernel busy_pool world opened
      (number dequeue_frame)
      8
      (ioctl kernel opened (number dequeue_frame) 8 busy_pool world)
ioctl-Dispatched_example = ioctl-Dispatched kernel busy_pool world opened (number dequeue_frame) 8

-- What the next dequeue of the busy pool answers.
abbrev next_dequeue : Dequeue
next_dequeue = record {
  seq = 7;
  slot = 1;
  resolved_angle_deg = 0;
  resolved_mirror = 0;
  reserved = 0;
}

busy_delivers : (dequeue kernel busy_pool world).0 ≡ ok next_dequeue
unfolding run init step dequeue take Producer.submit register format_validate dma_buf_get pose_apply
busy_delivers = refl

-- Address 0 faults.
ioctl-dequeue-fault_example :
    let (r, q, _) = ioctl kernel opened (number dequeue_frame) 0 busy_pool world in
    (r ≡ err efault) × ((slot_at q.slot 1).state ≡ held) × ((slot_at q.slot 1).seq ≡ 7)
ioctl-dequeue-fault_example =
    ioctl-dequeue-fault kernel busy_pool world opened 0 refl busy_pool-IsValid busy_delivers refl
