-- ===== src/Tests/Whole.antt =====
-- The counters, and the client, on a module that has been loaded.
use vcam_kmod.Base.{◌%◌, ◌^◌, ◌≡◌, arith, length, false, some, none, refl}
use vcam_kmod.Base.Int.{pos}
use vcam_kmod.Pool.State.{init, zero_pool, zero_stats}
use vcam_kmod.Pool.Step.{run}
use vcam_kmod.Pool.Fifo.Order.{all_accepted, all_delivered}
use vcam_kmod.Pool.Conserved.Defs.{IsConserved}
use vcam_kmod.Pool.Conserved.{init-IsConserved}
use vcam_kmod.Pool.Counters.{all_returned, init-counters}
use vcam_kmod.Main.Module.{Module, vcam_init}
use vcam_kmod.Pool.Control.{poll}
use vcam_kmod.Ctl.Commands.{usage, version_line, stats_line, poll_line, main}
use vcam_kmod.Ctl.Reports.{Ends, main_reports}
use vcam_kmod.Ctl.{Locals, Machine, process, cmd_selftest, first_frame, zero_dequeue}
use vcam_kmod.Ctl.Selftest.{selftest-passes}
use vcam_kmod.Tests.{kernel, with_world, two_calls, fresh_fds, a_pose, busy_pool}

init-IsConserved_example : IsConserved (run kernel (with_world two_calls) (init zero_pool 2).1).1
init-IsConserved_example =
    init-IsConserved kernel (with_world two_calls) zero_pool 2 (omega arith) (omega arith)

init-counters_example :
    let (tr, q) = run kernel (with_world two_calls) (init zero_pool 2).1 in
    (q.stats.submitted ≡ length (all_accepted tr) % 2 ^ 64)
    × (q.stats.dequeued ≡ length (all_delivered tr) % 2 ^ 64)
    × (q.stats.bound ≡ length (all_delivered tr) % 2 ^ 64)
    × (q.stats.released ≡ length (all_returned tr) % 2 ^ 64)
init-counters_example =
    init-counters kernel (with_world two_calls) zero_pool 2 (omega arith) (omega arith)

abbrev pub variables : Locals
variables = record {
  ver = record { abi = 0; max_streams = 0; pool_size = 0; reserved = 0 };
  st = zero_stats;
  poll = record { client_attached = 0; width_delta = 0; height_delta = 0; format = 0 };
  frame = first_frame (pos 0);
  dq = zero_dequeue;
  pose = a_pose;
  range = record { begin_ns = pos 0; end_ns = pos 0; loop = 0; reserved = 0 };
}

-- Both parameters are out of range.
abbrev pub odd_module : Module
odd_module = record { slots = 99; backend = 7; pool = zero_pool; pool_ready = false }

selftest-passes_example :
    let (_, m', w') = vcam_init process odd_module (fresh_fds, variables) in
    (cmd_selftest (pos 7) (record { pool = m'.pool; world = w' })).0 ≡ 0
selftest-passes_example =
    selftest-passes odd_module 7 fresh_fds variables (omega arith) (omega arith)

main_reports_example :
    let m : Machine = record { pool = busy_pool; world = (fresh_fds, variables) } in
    Ends
      (main none (pos 3) (pos 7) m)
      0
      (version_line
        (record { abi = 1; max_streams = 1; pool_size = busy_pool.nslots; reserved = 0 }))
      busy_pool
    × Ends (main (some "stats") (pos 3) (pos 7) m) 0 (stats_line busy_pool.stats) busy_pool
    × Ends
        (main (some "poll") (pos 3) (pos 7) m)
        0
        (poll_line (poll busy_pool).0)
        (poll busy_pool).1
    × (main (some "help") (pos 3) (pos 7) m ≡ (2, usage, m))
main_reports_example =
    main_reports 3 (pos 7) (record { pool = busy_pool; world = (fresh_fds, variables) }) "help" refl
