-- ===== src/Device/Program.antt =====
-- tools/vcam_selftest.c: `main`, statement by statement, once the buffer has been allocated. The
-- pixels and the output are left out.
use vcam_kmod.Base.{
  Bool, ℕ, ◌+◌, ◌-◌, ◌%◌, ◌^◌, not, ◌||◌, List, [], ◌∷◌, ◌++◌, ◌==◌, if◌then◌else◌,
}
use vcam_kmod.Base.Int.{ℤ, pos, negsuc, ltb_ℤ}
use vcam_kmod.Uapi.{Stats, f_mirror, f_autopose, abi_version}
use vcam_kmod.Uapi.Ioc.{
  get_version, register_buf, unregister_buf, submit, dequeue_frame, release, set_range, set_pose,
  get_stats, poll_delta,
}
use vcam_kmod.Kernel.{einval, ebusy, enoent, eagain, esrch}
use vcam_kmod.Pool.State.{zero_stats}
use vcam_kmod.Device.Memory.{
  Locals, Machine, ver, frame, dq, pose, range, poll, base, st, slot, never_held, dq_seq,
}
use vcam_kmod.Device.Expect.{Statement, assign, ok_of, err_of, val_of, nonzero_of, execute_all}
use vcam_kmod.Device.Assignments.{
  zero_version, first_frame, clear_dq, clear_poll, put_pose, put_range, put_seq, put_seq_at,
}

-- The baseline of the counters.
unfoldable pub baseline : List Statement
baseline = assign (λ v. record v { base = zero_stats }) ∷ ok_of get_stats base ∷ []

unfoldable pub abi : List Statement
abi =
    assign (λ v. record v { ver = zero_version })
    ∷ ok_of get_version ver
    ∷ val_of (λ v. v.ver.abi) abi_version
    ∷ val_of (λ v. v.ver.max_streams) 1
    ∷ nonzero_of (λ v. v.ver.pool_size)
    ∷ []

unfoldable pub registration : ℤ → List Statement
registration fd = assign (λ v. record v { frame = first_frame fd }) ∷ ok_of register_buf frame ∷ []

unfoldable pub geometry : List Statement
geometry =
    val_of (λ v. v.frame.slot) 0
    ∷ clear_poll
    ∷ ok_of poll_delta poll
    ∷ val_of (λ v. v.poll.width_delta) 64
    ∷ val_of (λ v. v.poll.height_delta) 64
    ∷ val_of (λ v. v.poll.format) 0
    ∷ clear_poll
    ∷ ok_of poll_delta poll
    ∷ val_of (λ v. v.poll.width_delta) 0
    ∷ []

unfoldable pub validation : List Statement
validation =
    put_pose (2 ^ 31) 0 (pos 0)
    ∷ err_of set_pose pose einval
    ∷ put_range (pos 5000) (pos 1000) 0
    ∷ err_of set_range range einval
    ∷ put_pose f_autopose 0 (pos 90)
    ∷ ok_of set_pose pose
    ∷ put_range (pos 0) (negsuc 0) 1
    ∷ ok_of set_range range
    ∷ []

-- The first frame, the refusals while it is held, and its release.
unfoldable pub first_round : List Statement
first_round =
    put_seq_at 1 (pos 1000)
    ∷ ok_of submit frame
    ∷ clear_dq
    ∷ ok_of dequeue_frame dq
    ∷ val_of (λ v. v.dq.seq) 1
    ∷ val_of (λ v. v.dq.resolved_angle_deg) 180
    ∷ val_of (λ v. v.dq.resolved_mirror) 1
    ∷ put_seq 2
    ∷ err_of submit frame ebusy
    ∷ err_of dequeue_frame dq eagain
    ∷ assign (λ v. record v { slot = v.frame.slot })
    ∷ err_of unregister_buf slot ebusy
    ∷ assign (λ v. record v { never_held = 77 })
    ∷ err_of release never_held esrch
    ∷ ok_of release dq_seq
    ∷ []

-- The sequence numbers must increase.
unfoldable pub second_round : List Statement
second_round =
    put_seq 0
    ∷ err_of submit frame einval
    ∷ put_seq 2
    ∷ ok_of submit frame
    ∷ clear_dq
    ∷ ok_of dequeue_frame dq
    ∷ val_of (λ v. v.dq.seq) 2
    ∷ ok_of release dq_seq
    ∷ clear_dq
    ∷ err_of dequeue_frame dq eagain
    ∷ []

-- An explicit pose, and a frame past the range.
unfoldable pub third_round : List Statement
third_round =
    put_pose f_mirror 45 (pos 0)
    ∷ ok_of set_pose pose
    ∷ put_seq_at 3 (pos 3000)
    ∷ ok_of submit frame
    ∷ clear_dq
    ∷ ok_of dequeue_frame dq
    ∷ val_of (λ v. v.dq.resolved_angle_deg) 0
    ∷ val_of (λ v. v.dq.resolved_mirror) 1
    ∷ ok_of release dq_seq
    ∷ put_range (pos 0) (pos 100) 0
    ∷ ok_of set_range range
    ∷ put_seq_at 4 (pos 500)
    ∷ ok_of submit frame
    ∷ clear_dq
    ∷ err_of dequeue_frame dq eagain
    ∷ []

-- `st.f - base.f`, an `__u64`.
abbrev since : (Stats → ℕ) → Locals → ℕ
since f v = (f v.st + 2 ^ 64 - f v.base) % 2 ^ 64

unfoldable pub counters : List Statement
counters =
    assign (λ v. record v { st = zero_stats })
    ∷ ok_of get_stats st
    ∷ val_of (since λ s. s.submitted) 4
    ∷ val_of (since λ s. s.dequeued) 3
    ∷ val_of (since λ s. s.released) 3
    ∷ val_of (since λ s. s.bound) 3
    ∷ val_of (since λ s. s.rejected_busy) 2
    ∷ val_of (since λ s. s.rejected_unknown) 2
    ∷ val_of (since λ s. s.dequeued_empty) 2
    ∷ val_of (since λ s. s.dropped_late) 1
    ∷ val_of (since λ s. s.looped) 0
    ∷ []

unfoldable pub clean_up : List Statement
clean_up =
    assign (λ v. record v { slot = 0 })
    ∷ ok_of unregister_buf slot
    ∷ assign (λ v. record v { slot = 99 })
    ∷ err_of unregister_buf slot enoent
    ∷ []

-- What follows the registration.
unfoldable pub checks : List Statement
unfolding geometry validation first_round second_round third_round counters clean_up
checks =
    geometry ++ validation ++ first_round ++ second_round ++ third_round ++ counters ++ clean_up

abbrev verdict : Machine → ℕ × Machine
verdict m = (if not (m.failures == 0) then 1 else 0, m)

-- Whether the baseline shows a pool that has been used.
abbrev pub used : Machine → Bool
used m =
    let base = m.world.1.base in
    not (base.submitted == 0) || not (base.dequeued == 0) || not (base.dropped_late == 0)

-- The pool has been used: 2. Otherwise the checks, and 1 if one has failed.
unfoldable pub judged : ℤ → Machine → ℕ × Machine
unfolding abi registration checks execute_all
judged fd m =
    if used m
    then (2, m)
    else verdict (execute_all checks (execute_all (registration fd) (execute_all abi m)))

-- `dev` is the descriptor of the device and `fd` that of the buffer.
unfoldable pub main : (dev fd : ℤ) → Machine → ℕ × Machine
unfolding judged baseline execute_all
main dev fd m =
    if ltb_ℤ dev (pos 0)
    then (1, m)
    else if ltb_ℤ fd (pos 0)
    then (1, m)
    else judged fd (execute_all baseline m)
