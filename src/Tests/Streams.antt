-- ===== src/Tests/Streams.antt =====
-- The pool as a stream of frames, at concrete calls.
use vcam_kmod.Base.{◌≡◌, some, [], ◌∷◌, refl}
use vcam_kmod.Base.Int.{pos}
use vcam_kmod.Pool.State.{init}
use vcam_kmod.Pool.Step.{step, run}
use vcam_kmod.Pool.Producer.{submit, register}
use vcam_kmod.Pool.Consumer.{dequeue, take}
use vcam_kmod.Pool.Fifo.Pending.{waiting}
use vcam_kmod.Logic.Format.{format_validate}
use vcam_kmod.Logic.Pose.{pose_apply}
use vcam_kmod.Shim.{dma_buf_get}
use vcam_kmod.Pool.Stream.Defs.{Behaves, view, held_count}
use vcam_kmod.Pool.Stream.{run-Behaves}
use vcam_kmod.Threads.System.{play, start}
use vcam_kmod.Threads.Serial.Defs.{Order, Serialised}
use vcam_kmod.Threads.Serial.Runs.{trace_of}
use vcam_kmod.Threads.Stream.{play-Behaves}
use vcam_kmod.Tests.{
  kernel, world, with_world, two_calls, empty_pool, empty_pool-IsValid, busy_pool,
  busy_pool-IsValid,
}
use vcam_kmod.Tests.Threads.{calls, dequeue_alone, alone}

run-Behaves_example :
    Behaves
      (run kernel (with_world two_calls) empty_pool).0
      (view empty_pool)
      (view (run kernel (with_world two_calls) empty_pool).1)
run-Behaves_example = run-Behaves kernel (with_world two_calls) empty_pool empty_pool-IsValid

-- Frame 7 waits, in the buffer of the second slot, and frame 5 is with the consumer.
busy_view :
    let s = view busy_pool in
    (s.queue
      ≡ record { seq = 7; timestamp_ns = pos 2000; angle = 0; mirror = 0; buffer = some 4 } ∷ [])
    × (s.held 5 ≡ 1)
    × (s.held 7 ≡ 0)
unfolding run init step dequeue take submit register format_validate dma_buf_get held_count waiting
    pose_apply
busy_view = (refl, refl, refl)

play-Behaves_example :
    let s = play kernel dequeue_alone (start kernel calls busy_pool world) in
    (ts : Order) × Serialised kernel calls busy_pool s ts
    × Behaves (trace_of calls ts) (view busy_pool) (view s.pool)
play-Behaves_example =
    play-Behaves kernel calls busy_pool world dequeue_alone busy_pool-IsValid alone
