-- ===== src/Tests/Poses.antt =====
-- A dequeue among threads that change the pose while it reads the frame's.
use vcam_kmod.Base.{ℕ, zero, suc, ◌≡◌, some, List, [], ◌∷◌, ◌++◌, refl, replicate}
use vcam_kmod.Base.Int.{pos}
use vcam_kmod.Kernel.{ok}
use vcam_kmod.Pool.State.{init}
use vcam_kmod.Pool.Step.{Call, frame, run, step}
use vcam_kmod.Pool.Producer.{register}
use vcam_kmod.Pool.Consumer.{oldest}
use vcam_kmod.Pool.Control.{set_pose}
use vcam_kmod.Logic.Range.{range_decide}
use vcam_kmod.Logic.Pose.{pose_apply}
use vcam_kmod.Logic.Format.{format_validate}
use vcam_kmod.Shim.{dma_buf_get}
use vcam_kmod.Threads.Prog.{done}
use vcam_kmod.Threads.Calls.{program}
use vcam_kmod.Threads.System.{Event, moves, play, start}
use vcam_kmod.Threads.Serial.Defs.{Order, Serialised, answer}
use vcam_kmod.Threads.Pose.{play-pose}
use vcam_kmod.Tests.{kernel, world, posed_pool, posed_pool-IsValid, posed_dequeue}

-- A dequeue, the release of its frame, the frame's submission, and another pose.
abbrev calls : ℕ → Call
calls zero = Call.dequeue
calls (suc zero) = Call.release 5
calls (suc (suc zero)) = Call.submit 0 5 (pos 1000) 0 0
calls (suc (suc (suc zero))) =
    Call.set_pose (record { flags = 0; rotation_deg = 0; media_rotation_deg = pos 0; reserved = 0 })
calls (suc (suc (suc (suc i)))) = Call.get_stats

-- The pose changes between the end of the dequeue's critical section and its last read.
abbrev before : List (Event kernel)
before = replicate 5 (moves 2) ++ replicate 5 (moves 0) ++ replicate 5 (moves 3) ++ moves 0 ∷ []

abbrev after : List (Event kernel)
after = replicate 5 (moves 1)

delivered :
    (play kernel before (start kernel calls posed_pool world)).thread 0
    ≡ done (frame (ok posed_dequeue))
unfolding play program init run step register format_validate dma_buf_get set_pose oldest
    range_decide pose_apply
delivered = refl

release_waits :
    (j : ℕ)
    → calls j ≡ Call.release 5
    → (play kernel before (start kernel calls posed_pool world)).thread j ≡ program kernel (calls j)
unfolding play program init run step register format_validate dma_buf_get set_pose oldest
    range_decide
release_waits zero e = cc
release_waits (suc zero) e = refl
release_waits (suc (suc zero)) e = cc
release_waits (suc (suc (suc zero))) e = cc
release_waits (suc (suc (suc (suc i)))) e = cc

play-pose_example :
    let s = play kernel before (start kernel calls posed_pool world) in
    (ts new : Order) × Serialised kernel calls posed_pool s ts
    × Serialised kernel calls posed_pool (play kernel after s) (new ++ ts)
    × (answer 0 ts ≡ some (frame (ok posed_dequeue)))
play-pose_example =
    play-pose kernel calls posed_pool world before after 0 posed_dequeue posed_pool-IsValid
      delivered release_waits
