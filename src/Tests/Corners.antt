-- ===== src/Tests/Corners.antt =====
-- Corner cases of src/vcam_pool.c, run on concrete pools.
use vcam_kmod.Base.{◌≡◌, refl, false, [], ◌∷◌}
use vcam_kmod.Base.Int.{pos}
use vcam_kmod.Kernel.{ok, err, enoent}
use vcam_kmod.Uapi.{Range}
use vcam_kmod.Logic.Format.{format_validate}
use vcam_kmod.Logic.Pose.{pose_apply}
use vcam_kmod.Logic.Range.{deliver, range_decide}
use vcam_kmod.Shim.{dma_buf_get}
use vcam_kmod.Pool.State.{Pool, init, slot_at, held}
use vcam_kmod.Pool.Step.{Call, step, run}
use vcam_kmod.Pool.Producer.{submit, register}
use vcam_kmod.Pool.Consumer.{dequeue, dequeue_out, take, acquire, release}
use vcam_kmod.Pool.Control.{set_pose, set_range}
use vcam_kmod.Tests.{kernel, world, small, a_pose, a_frame, with_world, empty_pool, busy_pool}

-- Between the dequeue of frame 7 and its late reads, another thread releases the frame and submits
-- frame 9 to the slot under another pose: frame 7 is reported with the pose of frame 9.
late_pose :
    let cs =
      with_world (Call.release 7 ∷ Call.set_pose a_pose ∷ Call.submit 1 9 (pos 3000) 0 0 ∷ []) in
    dequeue_out
      (run kernel cs (take kernel false busy_pool world).1).1
      (take kernel false busy_pool world).0
    ≡ ok (record { seq = 7; slot = 1; resolved_angle_deg = 180; resolved_mirror = 1; reserved = 0 })
unfolding run init step dequeue take submit register release set_pose format_validate dma_buf_get
    pose_apply
late_pose = refl

-- The release of frame 5 clears the active number while frame 7 is held.
abbrev both_held : Pool
both_held = (dequeue kernel busy_pool world).1

released_active :
    ((release both_held 5).1.active_seq ≡ 0)
    × ((slot_at (release both_held 5).1.slot 1).state ≡ held)
    × ((slot_at (release both_held 5).1.slot 1).seq ≡ 7)
unfolding run init step dequeue take submit register release format_validate dma_buf_get
released_active = (refl, refl, refl)

-- A frame at the end of the range is delivered as one within it, and counted as a wrap.
abbrev to_thousand : Range
to_thousand = record { begin_ns = pos 0; end_ns = pos 1000; loop = 1; reserved = 0 }

abbrev at_end : Pool
at_end =
    (run kernel
      (with_world (
        Call.register (pos 3) small
        ∷ Call.set_range to_thousand
        ∷ Call.submit 0 5 (pos 1000) 0 0
        ∷ []))
      empty_pool).1

end_is_wrap :
    (range_decide at_end.range_end_ns at_end.loop (pos 1000) ≡ deliver)
    × ((dequeue kernel at_end world).1.stats.looped ≡ 1)
unfolding run init step dequeue take submit register set_range range_decide format_validate
    dma_buf_get
end_is_wrap = (refl, refl)

-- Frame 5's descriptor is gone when it is acquired: the attempt fails, and counts a wrap.
abbrev no_buffers : kernel.World
no_buffers = (λ j. record { size = 0; refcnt = 0; peak = 0 }, a_frame)

failed_wrap :
    ((acquire kernel at_end no_buffers).0 ≡ err enoent)
    × ((acquire kernel at_end no_buffers).1.wraps_due ≡ 1)
unfolding run init step take acquire submit register set_range range_decide format_validate
    dma_buf_get
failed_wrap = (refl, refl)
