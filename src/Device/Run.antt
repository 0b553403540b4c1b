-- ===== src/Device/Run.antt =====
-- Runs of tools/vcam_selftest.c.
use vcam_kmod.Base.{ℕ, suc, ◌<◌, ◌≡◌, refl, ap, Bool, arith, not, ◌||◌, ◌==◌, true, some}
use vcam_kmod.Base.Int.{ℤ, pos}
use vcam_kmod.Kernel.{ok}
use vcam_kmod.Pool.State.{Pool, init, max_slots, zero_stats}
use vcam_kmod.Pool.Control.{set_pose, set_range, poll, get_stats}
use vcam_kmod.Ctrl.Dispatch.{decode, handle, ioctl, ioctl_register}
use vcam_kmod.Ctrl.Faults.{ioctl-handle}
use vcam_kmod.Logic.Format.{format_validate, format_reportable}
use vcam_kmod.Pool.Producer.{bind_slot, find_unbound, submit, unregister}
use vcam_kmod.Pool.Consumer.{dequeue, take, release}
use vcam_kmod.Logic.Pose.{pose_apply}
use vcam_kmod.Main.Module.{Module, vcam_init}
use vcam_kmod.Main.Fresh.{fresh, nonneg, register-fresh, fresh-free, vcam_init-fresh, by_slots}
use vcam_kmod.Shim.{Fds, max_dma_bufs, update, counted}
use vcam_kmod.Uapi.{Format, Stats, abi_version}
use vcam_kmod.Uapi.Ioc.{Command, register_buf, number, ioc_type, ioc_nr}
use vcam_kmod.Device.Memory.{Locals, Machine, process, load, store, address, base, frame}
use vcam_kmod.Device.Expect.{execute, execute_all, call, expect_ok, expect_err, expect_val}
use vcam_kmod.Device.Assignments.{first_frame}
use vcam_kmod.Device.Program.{baseline, abi, registration, checks, judged, main}

abbrev small : Format
small = (first_frame (pos 0)).fmt

abbrev framed : ℕ → Locals → Locals
framed d v = record v { frame = first_frame (pos d) }

registered :
    (p : Pool) (d : ℕ) (fds : Fds) (v : Locals) (failures : ℕ)
    → d < 64
    → 0 < (fds d).size
    → find_unbound p.nslots 0 p.slot ≡ some 0
    → execute_all
        (registration (pos d))
        (record { pool = p; world = (fds, v); failures = failures })
      ≡ record {
        pool = bind_slot p 0 d (pos d) small;
        world = (update fds d (counted (fds d)), framed d v);
        failures = failures;
      }
unfolding execute_all registration execute call expect_ok handle ioctl_register format_validate
registered p d fds v failures low sized free =
    let valid : format_validate small ≡ ok tt = refl in
    rw
      (
        ioctl-handle process p (fds, framed d v) (record { private_data = true }) register_buf
            (address frame) refl,
        register-fresh Locals load store p d small fds (framed d v) low sized valid free,
      )
      refl

-- A machine on a fresh pool.
abbrev start : Pool → (n b : ℕ) → Fds → Locals → Machine
start p n b fds v = record { pool = fresh p (suc n) b; world = (fds, v); failures = 0 }

abbrev based : Locals → Locals
based v = record v { base = zero_stats }

-- The variables when the version has been read.
abbrev versioned : ℕ → Locals → Locals
versioned n v = record (based v) {
  ver = record { abi = abi_version; max_streams = 1; pool_size = suc n; reserved = 0 };
}

module _ (p : Pool) (b d : ℕ) (fds : Fds) (v : Locals) where
  before :
      (n : ℕ)
      → n < max_slots
      → (execute_all baseline (start p n b fds v) ≡ start p n b fds (based v))
        × (execute_all abi (start p n b fds (based v)) ≡ start p n b fds (versioned n v))
  unfolding execute_all baseline abi execute call expect_ok expect_val init ioctl ioc_type ioc_nr
      number decode handle get_stats
  before n h =
      by_slots
        (λ n.
          (execute_all baseline (start p n b fds v) ≡ start p n b fds (based v))
          × (execute_all abi (start p n b fds (based v)) ≡ start p n b fds (versioned n v)))
        (refl, refl) (refl, refl) (refl, refl) (refl, refl) (refl, refl) (refl, refl) (refl, refl)
        (refl, refl) n h

  -- The machine after the registration, and after the checks.
  abbrev bound : ℕ → Machine
  bound n = record {
    pool = bind_slot (fresh p (suc n) b) 0 d (pos d) small;
    world = (update fds d (counted (fds d)), framed d (versioned n v));
    failures = 0;
  }

  after :
      (n : ℕ)
      → n < max_slots
      → ((execute_all checks (bound n)).failures ≡ 0)
        × ((execute_all checks (bound n)).pool.stats.submitted ≡ 4)
  unfolding execute_all checks execute call expect_ok expect_err expect_val init ioctl ioc_type
      ioc_nr number decode handle set_pose set_range submit dequeue take pose_apply release poll
      unregister get_stats format_reportable
  after n h =
      by_slots
        (λ n.
          ((execute_all checks (bound n)).failures ≡ 0)
          × ((execute_all checks (bound n)).pool.stats.submitted ≡ 4))
        (refl, refl) (refl, refl) (refl, refl) (refl, refl) (refl, refl) (refl, refl) (refl, refl)
        (refl, refl) n h

  main-fresh :
      (dev n : ℕ)
      → n < max_slots
      → d < max_dma_bufs
      → 0 < (fds d).size
      → main (pos dev) (pos d) (start p n b fds v) ≡ (0, execute_all checks (bound n))
  unfolding main judged
  main-fresh dev n h low sized =
      let (one, two) = before n h in
      let three =
        registered (fresh p (suc n) b) d fds (versioned n v) 0 low sized (fresh-free p n b h) in
      rw (nonneg dev, nonneg d, one, two, three, (after n h).0) refl

-- The counters show that the pool has been used.
abbrev pub is_used : Stats → Bool
is_used s = not (s.submitted == 0) || not (s.dequeued == 0) || not (s.dropped_late == 0)

submitted_used : (s : Stats) → s.submitted ≡ 4 → is_used s ≡ true
submitted_used s e = ground arith

baseline-Machine :
    (m : Machine)
    → execute_all baseline m
      ≡ record m { world = (m.world.0, record (m.world.1) { base = m.pool.stats }) }
unfolding baseline execute_all execute call expect_ok handle get_stats
baseline-Machine m =
    rw
      (ioctl-handle process m.pool (m.world.0, record (m.world.1) { base = zero_stats })
        (record { private_data = true }) Command.get_stats (address base) refl)
      refl

judged-used : (fd : ℤ) (m : Machine) → is_used m.world.1.base ≡ true → judged fd m ≡ (2, m)
unfolding judged
judged-used fd m used = rw used refl

-- If a frame has been submitted, taken or dropped since the module was loaded, the test judges
-- nothing: it returns 2 and leaves the pool as it is.
pub main-used :
    (dev fd : ℕ) (m : Machine)
    → is_used m.pool.stats ≡ true
    → ((main (pos dev) (pos fd) m).0 ≡ 2) × ((main (pos dev) (pos fd) m).1.pool ≡ m.pool)
unfolding main
main-used dev fd m used =
    rw (nonneg dev, nonneg fd, baseline-Machine m)
      (let e =
          judged-used (pos fd)
            (record m { world = (m.world.0, record (m.world.1) { base = m.pool.stats }) }) used in
        (ap (λ o. o.0) e, ap (λ o. o.1.pool) e))

-- On a module that has just been loaded, whatever its parameters are, the on-device test returns 0
-- with no failure counted, if the descriptor of its buffer is below 64 and the harness knows its
-- buffer; if it runs again on the same module, it returns 2.
pub main_passes :
    (m : Module) (dev d : ℕ) (fds : Fds) (v : Locals)
    → d < max_dma_bufs
    → 0 < (fds d).size
    → let (_, m', w') = vcam_init process m (fds, v) in
      let (r, done) =
        main (pos dev) (pos d) (record { pool = m'.pool; world = w'; failures = 0 }) in
      (r ≡ 0) × (done.failures ≡ 0) × ((main (pos dev) (pos d) done).0 ≡ 2)
main_passes m dev d fds v low sized =
    let (n, c, h, e) = vcam_init-fresh process m (fds, v) (fds, v) refl in
    let (clean, used) = after m.pool c d fds v n h in
    rw (e, main-fresh m.pool c d fds v dev n h low sized)
      (
        refl,
        clean,
        (main-used dev d _
            (submitted_used (execute_all checks (bound m.pool c d fds v n)).pool.stats used)).0,
      )
