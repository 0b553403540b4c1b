-- ===== src/Tests/Threads.antt =====
-- Threads on a pool with two buffers.
use vcam_kmod.Base.{ℕ, zero, suc, ◌++◌, ◌≡◌, true, none, List, [], ◌∷◌, refl, arith, replicate}
use vcam_kmod.Base.Int.{pos}
use vcam_kmod.Pool.State.{init, zero_pool, slot_at, held}
use vcam_kmod.Pool.Fifo.Pending.{pending}
use vcam_kmod.Pool.Fifo.Lossless.{is_lossless}
use vcam_kmod.Pool.Fifo.Order.{all_accepted, all_delivered}
use vcam_kmod.Threads.Serial.Runs.{trace_of}
use vcam_kmod.Threads.Queue.{play-queue}
use vcam_kmod.Pool.Step.{Call, step, run}
use vcam_kmod.Pool.Invariant.Defs.{IsValid}
use vcam_kmod.Pool.Conserved.Defs.{IsConserved}
use vcam_kmod.Pool.Conserved.{init-IsConserved}
use vcam_kmod.Threads.System.{Event, moves, disturbs, play, start}
use vcam_kmod.Threads.Calls.{program}
use vcam_kmod.Threads.Serial.Defs.{Order, Serialised}
use vcam_kmod.Threads.Serial.{play-Serialised, play-IsValid}
use vcam_kmod.Threads.Progress.{play_rounds, rounds_return}
use vcam_kmod.Threads.Progress.Steps.{has_returned}
use vcam_kmod.Pool.Consumer.{dequeue, take}
use vcam_kmod.Pool.Producer.{submit, register}
use vcam_kmod.Logic.Format.{format_validate}
use vcam_kmod.Shim.{dma_buf_get}
use vcam_kmod.Tests.{kernel, world, small, busy_pool, busy_pool-IsValid, with_world, two_calls}

-- A dequeue, a submission to the slot that it takes, and a registration for which no slot is free.
abbrev pub calls : ℕ → Call
calls zero = Call.dequeue
calls (suc zero) = Call.submit 1 9 (pos 3000) 0 0
calls (suc (suc zero)) = Call.register (pos 5) small
calls (suc (suc (suc i))) = Call.get_stats

-- The three threads in turn.
abbrev turn : List (Event kernel)
turn = moves 0 ∷ moves 2 ∷ disturbs world ∷ moves 1 ∷ []

abbrev three_turns : List (Event kernel)
three_turns = turn ++ turn ++ turn

play-Serialised_example :
    let s = play kernel three_turns (start kernel calls busy_pool world) in
    (ts new : Order) × Serialised kernel calls busy_pool s ts
    × Serialised kernel calls busy_pool (play kernel turn s) (new ++ ts)
play-Serialised_example = play-Serialised kernel calls busy_pool world three_turns turn

-- The dequeue runs alone.
abbrev pub dequeue_alone : List (Event kernel)
dequeue_alone = replicate 6 (moves 0)

pub alone : (play kernel dequeue_alone (start kernel calls busy_pool world)).owner ≡ none
unfolding play program init run step dequeue take submit register format_validate dma_buf_get
alone = refl

play-IsValid_example :
    IsValid (play kernel dequeue_alone (start kernel calls busy_pool world)).pool
    × IsConserved (play kernel dequeue_alone (start kernel calls busy_pool world)).pool
play-IsValid_example =
    play-IsValid kernel calls busy_pool world dequeue_alone busy_pool-IsValid
      (init-IsConserved kernel (with_world two_calls) zero_pool 2 (omega arith) (omega arith)) alone

abbrev rounds : List (List (Event kernel))
rounds = replicate 19 turn

rounds_return_example :
    has_returned ((play_rounds kernel rounds (start kernel calls busy_pool world)).thread 1) ≡ true
rounds_return_example =
    rounds_return kernel calls busy_pool 3 world rounds 1 refl (omega arith) (omega arith)

-- A registration, a submission to its slot, and dequeues.
abbrev frame_calls : ℕ → Call
frame_calls zero = Call.register (pos 5) small
frame_calls (suc zero) = Call.submit 0 9 (pos 3000) 0 0
frame_calls (suc (suc i)) = Call.dequeue

frame_calls-lossless : (i : ℕ) → is_lossless (frame_calls i) ≡ true
frame_calls-lossless zero = refl
frame_calls-lossless (suc zero) = refl
frame_calls-lossless (suc (suc i)) = refl

-- The submission waits for the mutex while the registration has it.
abbrev frame_events : List (Event kernel)
frame_events =
    moves 0 ∷ moves 0 ∷ moves 1 ∷ replicate 5 (moves 0)
    ++ replicate 5 (moves 1)
    ++ replicate 5 (moves 2)

frame_events-end :
    let s = play kernel frame_events (start kernel frame_calls (init zero_pool 2).1 world) in
    (s.owner ≡ none) × ((slot_at s.pool.slot 0).state ≡ held) × ((slot_at s.pool.slot 0).seq ≡ 9)
unfolding play program init run step dequeue take submit register format_validate dma_buf_get
frame_events-end = (refl, refl, refl)

play-queue_example :
    let s = play kernel frame_events (start kernel frame_calls (init zero_pool 2).1 world) in
    (ts : Order) × Serialised kernel frame_calls (init zero_pool 2).1 s ts
    × (all_accepted (trace_of frame_calls ts)
        ≡ all_delivered (trace_of frame_calls ts) ++ pending s.pool.slot)
play-queue_example =
    play-queue kernel frame_calls frame_calls-lossless zero_pool 2 world frame_events (omega arith)
      (omega arith) frame_events-end.0
