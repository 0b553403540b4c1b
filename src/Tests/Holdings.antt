-- ===== src/Tests/Holdings.antt =====
-- The references of threads that call the pool at the same time, on the harness's registry.
use vcam_kmod.Base.{
  ℕ, zero, suc, ◌+◌, ◌++◌, ◌-◌, ◌^◌, ◌<◌, ◌≡◌, true, List, [], ◌∷◌, refl, arith, replicate,
}
use vcam_kmod.Base.Int.{pos}
use vcam_kmod.Pool.State.{Pool, init, zero_pool}
use vcam_kmod.Pool.Step.{Call, step, run}
use vcam_kmod.Pool.Safety.{init-IsValid}
use vcam_kmod.Pool.Conserved.Defs.{IsConserved}
use vcam_kmod.Pool.Conserved.{init-IsConserved}
use vcam_kmod.Pool.Refs.Held.{held_refs}
use vcam_kmod.Pool.Producer.{submit, register}
use vcam_kmod.Pool.Consumer.{take}
use vcam_kmod.Logic.Format.{format_validate}
use vcam_kmod.Shim.{dma_buf_get, fd_refcnt}
use vcam_kmod.Threads.System.{Event, moves, move, play, start}
use vcam_kmod.Threads.Calls.{program}
use vcam_kmod.Threads.Progress.Totals.{total}
use vcam_kmod.Threads.Progress.Steps.{has_returned}
use vcam_kmod.Threads.Refs.{handed, Undisturbed, play-refs}
use vcam_kmod.Tests.{kernel, world, small}
use vcam_kmod.Tests.References.{laws, world_room, posed_world_room, second_world_room}

-- A registration, a submission to its slot, and an acquire.
abbrev calls : ℕ → Call
calls zero = Call.register (pos 3) small
calls (suc zero) = Call.submit 0 5 (pos 1000) 0 0
calls (suc (suc i)) = Call.acquire

abbrev pool : Pool
pool = (init zero_pool 2).1

-- The submission waits for the mutex while the registration has it.
abbrev events : List (Event kernel)
events =
    moves 0 ∷ moves 0 ∷ moves 1 ∷ replicate 3 (moves 0)
    ++ replicate 4 (moves 1)
    ++ replicate 6 (moves 2)

events-return :
    (i : ℕ)
    → i < 3
    → has_returned ((play kernel events (start kernel calls pool world)).thread i) ≡ true
unfolding play program init step take submit register format_validate dma_buf_get
events-return zero h = refl
events-return (suc zero) h = refl
events-return (suc (suc zero)) h = refl
events-return (suc (suc (suc i))) h = absurd (omega arith)

events-end :
    let s = play kernel events (start kernel calls pool world) in
    (kernel.refs 3 s.world ≡ 2) × (held_refs 3 s.pool.slot ≡ 1) × (handed 3 (s.thread 2) ≡ 1)
unfolding play program init step take submit register format_validate dma_buf_get fd_refcnt
    held_refs
events-end = (refl, refl, refl)

pool-IsConserved : IsConserved pool
unfolding run
pool-IsConserved = init-IsConserved kernel [] zero_pool 2 (omega arith) (omega arith)

no_refs : (b : ℕ) → held_refs b pool.slot ≡ 0
unfolding init held_refs
no_refs b = refl

events-Undisturbed : Undisturbed kernel (2 ^ 32 - 1) events (start kernel calls pool world)
unfolding move play program init step take submit register format_validate dma_buf_get
events-Undisturbed = (
  world_room,
  (
    posed_world_room,
    (
      posed_world_room,
      (
        posed_world_room,
        (
          posed_world_room,
          (
            posed_world_room,
            (
              posed_world_room,
              (
                posed_world_room,
                (
                  posed_world_room,
                  (
                    posed_world_room,
                    (
                      posed_world_room,
                      (
                        posed_world_room,
                        (
                          posed_world_room,
                          (posed_world_room, (second_world_room, (second_world_room, tt))),
                        ),
                      ),
                    ),
                  ),
                ),
              ),
            ),
          ),
        ),
      ),
    ),
  ),
)

play-refs_example :
    let s = play kernel events (start kernel calls pool world) in
    kernel.refs 3 s.world + held_refs 3 pool.slot
    ≡ kernel.refs 3 world + held_refs 3 s.pool.slot + total (λ i. handed 3 (s.thread i)) 3
play-refs_example =
    play-refs kernel (2 ^ 32 - 1) laws calls pool world 3 events
      (init-IsValid zero_pool 2 (omega arith) (omega arith)).1 pool-IsConserved
      (λ b. omega (arith, no_refs b)) refl events-Undisturbed events-return 3
