-- ===== src/Ctrl/Faults.antt =====
-- src/vcam_ctrl.c: the handler of each command, and faults of the copy of an answer to the user.
use vcam_kmod.Base.{ℕ, ◌≡◌, ◌∙◌, refl, sym, ap, arith, true, false, subst}
use vcam_kmod.Kernel.{Kernel, Result, ok, err, efault}
use vcam_kmod.Uapi
use vcam_kmod.Uapi.{Dequeue}
use vcam_kmod.Uapi.Ioc.{Command, dequeue_frame, number}
use vcam_kmod.Pool.State.{Pool, slot_at, held}
use vcam_kmod.Pool.Consumer.{dequeue}
use vcam_kmod.Pool.Invariant.Defs.{IsValid}
use vcam_kmod.Pool.Invariant.Write.{slot_at-set}
use vcam_kmod.Pool.Delivery.{dequeue-ok}
use vcam_kmod.Ctrl.Dispatch.{File, copy_out, handle, handle_if, ioctl, ioctl_dequeue, dequeue_done}
use vcam_kmod.Ctrl.Encoding.{decode-number}

module _ (k : Kernel) (p : Pool) (w : k.World) where
  -- On a file with a pool, the number of a command leads to that command's handler, and what the
  -- handler returns and leaves is what the ioctl does.
  pub ioctl-handle :
      (f : File) (c : Command) (arg : ℕ)
      → f.private_data ≡ true
      → ioctl k f (number c) arg p w ≡ handle k c p arg w
  unfolding ioctl handle_if
  ioctl-handle f c arg h =
      let (decoded, typed, numbered) = decode-number c in
      ground (arith, h, decoded, typed, numbered)

  dequeue_done-fault :
      (arg : ℕ) (o : Result Dequeue × Pool × k.World) {d : Dequeue}
      → o.0 ≡ ok d
      → (k.copy_to_user Uapi.dequeue arg d o.2).0 ≡ false
      → ((dequeue_done k arg o).0 ≡ err efault) × ((dequeue_done k arg o).1 ≡ o.1)
  unfolding dequeue_done copy_out
  dequeue_done-fault arg (err e, q, w') h bad = cc
  dequeue_done-fault arg (ok t, q, w') {d} h bad =
      let same : (k.copy_to_user Uapi.dequeue arg t w').0 ≡ false =
        ap (λ e. (k.copy_to_user Uapi.dequeue arg e w').0) (ap (payload d) h) ∙ bad in
      (rw same refl, refl)
    where
      payload : Dequeue → Result Dequeue → Dequeue
      payload d (ok e) = e
      payload d (err _) = d

  -- VCAM_IOC_DEQUEUE on a file with a valid pool: if the pool delivers a frame and the copy of the
  -- answer to the user faults, the ioctl returns -EFAULT, and the frame's slot is held all the
  -- same.
  pub ioctl-dequeue-fault :
      (f : File) (arg : ℕ) {d : Dequeue}
      → f.private_data ≡ true
      → IsValid p
      → (dequeue k p w).0 ≡ ok d
      → (k.copy_to_user Uapi.dequeue arg d w).0 ≡ false
      → let (r, q, _) = ioctl k f (number dequeue_frame) arg p w in
        (r ≡ err efault)
        × ((slot_at q.slot d.slot).state ≡ held)
        × ((slot_at q.slot d.slot).seq ≡ d.seq)
  unfolding handle ioctl_dequeue
  ioctl-dequeue-fault f arg {d} h v e bad =
      let (out, n, _, _, u) = dequeue-ok k p w v.pool e in
      let (r, q) =
        dequeue_done-fault arg (dequeue k p w) e
          (subst (λ x. (k.copy_to_user Uapi.dequeue arg d x).0 ≡ false) (sym u) bad) in
      let read =
        slot_at-set v.pool d.slot out.oldest.in_range
          (record (slot_at p.slot d.slot) { state = held }) d.slot in
      rw (ioctl-handle f dequeue_frame arg h)
        (r, rw (q, out.slot) (ground (arith, read)), rw (q, out.slot) (ground (arith, read, n)))
