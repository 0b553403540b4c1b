-- ===== src/Ctl/Selftest.antt =====
-- A run of the self-test of tools/vcamctl.c on a module that has just been loaded.
use vcam_kmod.Base.{ℕ, suc, ◌<◌, ◌≡◌, refl, ap, true, some}
use vcam_kmod.Base.Int.{pos}
use vcam_kmod.Kernel.{ok}
use vcam_kmod.Pool.State.{Pool, init, max_slots}
use vcam_kmod.Pool.Control.{set_pose, set_range}
use vcam_kmod.Ctrl.Dispatch.{File, decode, handle, ioctl, ioctl_register}
use vcam_kmod.Logic.Format.{format_validate}
use vcam_kmod.Pool.Producer.{bind_slot, find_unbound}
use vcam_kmod.Pool.Producer.{submit}
use vcam_kmod.Pool.Consumer.{dequeue, take, release}
use vcam_kmod.Logic.Pose.{pose_apply}
use vcam_kmod.Main.Module.{Module, vcam_init}
use vcam_kmod.Shim.{Fds, max_dma_bufs, update, counted}
use vcam_kmod.Main.Fresh.{fresh, nonneg, register-fresh, fresh-free, vcam_init-fresh, by_slots}
use vcam_kmod.Uapi.{Format}
use vcam_kmod.Uapi.Ioc.{Command, register_buf, number, ioc_type, ioc_nr}
use vcam_kmod.Ctrl.Faults.{ioctl-handle}
use vcam_kmod.Ctl.{
  Machine, Locals, process, load, store, first_frame, at_frame, checked, proceed, configure,
  cmd_selftest,
}

abbrev opened : File
opened = record { private_data = true }

abbrev small : Format
small = (first_frame (pos 0)).fmt

-- The variables before and after the registration: the slot that it returns is 0 too.
abbrev framed : ℕ → Locals → Locals
framed d v = record v { frame = first_frame (pos d) }

first_ioctl :
    (p : Pool) (d : ℕ) (fds : Fds) (v : Locals)
    → d < 64
    → 0 < (fds d).size
    → find_unbound p.nslots 0 p.slot ≡ some 0
    → ioctl process opened (number register_buf) at_frame p (fds, framed d v)
      ≡ (ok tt, bind_slot p 0 d (pos d) small, (update fds d (counted (fds d)), framed d v))
unfolding handle ioctl_register format_validate
first_ioctl p d fds v low sized free =
    let valid : format_validate small ≡ ok tt = refl in
    rw
      (
        ioctl-handle process p (fds, framed d v) opened register_buf at_frame refl,
        register-fresh Locals load store p d small fds (framed d v) low sized valid free,
      )
      refl

checked-ok :
    (c : Command) (addr : ℕ) (m : Machine) (next : Machine → ℕ × Machine) {p : Pool}
    {w : process.World}
    → ioctl process opened (number c) addr m.pool m.world ≡ (ok tt, p, w)
    → checked c addr m next ≡ next (record { pool = p; world = w })
unfolding checked proceed
checked-ok c addr m next e = ap (λ o. proceed o next) e

-- The rest of the self-test, on a pool whose first slot has been registered.
configured :
    (p : Pool) (n b d : ℕ) (fds : Fds) (v : Locals)
    → n < max_slots
    → (configure (record {
      pool = bind_slot (fresh p (suc n) b) 0 d (pos d) small;
      world = (fds, framed d v);
    })).0
      ≡ 0
unfolding configure init ioctl ioc_type number ioc_nr decode set_pose set_range submit dequeue take
    pose_apply release
configured p n b d fds v h =
    by_slots
      (λ n.
        (configure (record {
          pool = bind_slot (fresh p (suc n) b) 0 d (pos d) small;
          world = (fds, framed d v);
        })).0
        ≡ 0)
      refl refl refl refl refl refl refl refl n h

selftest-fresh :
    (p : Pool) (n b d : ℕ) (fds : Fds) (v : Locals)
    → n < max_slots
    → d < max_dma_bufs
    → 0 < (fds d).size
    → (cmd_selftest (pos d) (record { pool = fresh p (suc n) b; world = (fds, v) })).0 ≡ 0
unfolding cmd_selftest
selftest-fresh p n b d fds v h low sized =
    rw
      (
        nonneg d,
        checked-ok register_buf at_frame
            (record { pool = fresh p (suc n) b; world = (fds, framed d v) }) configure
            (first_ioctl (fresh p (suc n) b) d fds v low sized (fresh-free p n b h)),
      )
      (configured p n b d _ v h)

-- The self-test of vcamctl exits with 0 on a module that has just been loaded, whatever the
-- module's parameters are, if the descriptor of its buffer is below 64 and the harness knows its
-- buffer.
pub selftest-passes :
    (m : Module) (d : ℕ) (fds : Fds) (v : Locals)
    → d < max_dma_bufs
    → 0 < (fds d).size
    → let (_, m', w') = vcam_init process m (fds, v) in
      (cmd_selftest (pos d) (record { pool = m'.pool; world = w' })).0 ≡ 0
selftest-passes m d fds v low sized =
    let (n, c, h, e) = vcam_init-fresh process m (fds, v) (fds, v) refl in
    rw e (selftest-fresh m.pool n c d fds v h low sized)
