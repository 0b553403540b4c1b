-- ===== src/Ctrl/Dispatch.antt =====
-- The handlers of src/vcam_ctrl.c.
use vcam_kmod.Base.{ℕ, Bool, true, false, not, Option, none, some, ltb, ◌==◌, if◌then◌else◌}
use vcam_kmod.Uapi.{
  Struct, Val, Version, Frame, version, frame, u32, u64, range, pose, stats, poll, abi_version,
}
use vcam_kmod.Uapi
use vcam_kmod.Uapi.Ioc.{
  Command, get_version, register_buf, unregister_buf, submit, dequeue_frame, release, set_range,
  set_pose, get_stats, poll_delta, number, ioc_type, ioc_nr, magic, max_nr,
}
use vcam_kmod.Kernel.{Kernel, Result, ok, err, efault, enodev, enotty}
use vcam_kmod.Pool.State.{Pool}
use vcam_kmod.Pool.Producer
use vcam_kmod.Pool.Consumer
use vcam_kmod.Pool.Control

-- `struct file`: whether `private_data` points to the module's pool, or is NULL.
pub record File : Type 0 where
  pub private_data : Bool

-- The `switch` on the command number.
unfoldable pub decode : ℕ → Option Command
unfolding number
decode cmd =
    if cmd == number get_version
    then some get_version
    else if cmd == number register_buf
    then some register_buf
    else if cmd == number unregister_buf
    then some unregister_buf
    else if cmd == number submit
    then some submit
    else if cmd == number dequeue_frame
    then some dequeue_frame
    else if cmd == number release
    then some release
    else if cmd == number set_range
    then some set_range
    else if cmd == number set_pose
    then some set_pose
    else if cmd == number get_stats
    then some get_stats
    else if cmd == number poll_delta
    then some poll_delta
    else none

module _ (k : Kernel) where
  abbrev pub Outcome : Type 0
  Outcome = Result (Unit {0}) × Pool × k.World

  -- `copy_to_user`, or -EFAULT.
  abbrev pub copied : Bool → Result (Unit {0})
  copied true = ok tt
  copied false = err efault

  unfoldable pub copy_out : (s : Struct) → ℕ → Val s → Pool → k.World → Outcome
  copy_out s arg v p w = let (done, w') = k.copy_to_user s arg v w in (copied done, p, w')

  -- `copy_from_user`, or -EFAULT, and what follows.
  unfoldable pub copy_in : (s : Struct) → ℕ → Pool → k.World → (Val s → Outcome) → Outcome
  copy_in s arg p w next = elim (k.copy_from_user s arg w) [
    | none ↦ (err efault, p, w)
    | some v ↦ next v
  ]

  unfoldable pub register_out : Frame → ℕ → Result ℕ × Pool × k.World → Outcome
  unfolding copy_out
  register_out f arg (err e, p, w) = (err e, p, w)
  register_out f arg (ok slot, p, w) = copy_out frame arg (record f { slot = slot }) p w

  unfoldable pub ioctl_register : Pool → ℕ → k.World → Outcome
  unfolding copy_in register_out
  ioctl_register p arg w =
      copy_in frame arg p w λ f. register_out f arg (Producer.register k p f.fd f.fmt w)

  abbrev with_world : Result (Unit {0}) × Pool → k.World → Outcome
  with_world (r, p) w = (r, p, w)

  unfoldable pub ioctl_submit : Pool → ℕ → k.World → Outcome
  unfolding copy_in
  ioctl_submit p arg w =
      copy_in frame arg p w
        λ f. with_world (Producer.submit p f.slot f.seq f.timestamp_ns f.rotation_deg f.flags) w

  unfoldable pub dequeue_done : ℕ → Result Uapi.Dequeue × Pool × k.World → Outcome
  unfolding copy_out
  dequeue_done arg (err e, p, w) = (err e, p, w)
  dequeue_done arg (ok dq, p, w) = copy_out Uapi.dequeue arg dq p w

  unfoldable pub ioctl_dequeue : Pool → ℕ → k.World → Outcome
  unfolding dequeue_done
  ioctl_dequeue p arg w = dequeue_done arg (Consumer.dequeue k p w)

  unfoldable pub ioctl_get_version : Pool → ℕ → k.World → Outcome
  unfolding copy_out
  ioctl_get_version p arg w =
      copy_out version arg
        (record { abi = abi_version; max_streams = 1; pool_size = p.nslots; reserved = 0 }) p w

  unfoldable pub handle : Command → Pool → ℕ → k.World → Outcome
  unfolding ioctl_register ioctl_submit ioctl_dequeue ioctl_get_version copy_in copy_out
  handle get_version p arg w = ioctl_get_version p arg w
  handle register_buf p arg w = ioctl_register p arg w
  handle unregister_buf p arg w = copy_in u32 arg p w λ slot. Producer.unregister k p slot w
  handle submit p arg w = ioctl_submit p arg w
  handle dequeue_frame p arg w = ioctl_dequeue p arg w
  handle release p arg w = copy_in u64 arg p w λ seq. with_world (Consumer.release p seq) w
  handle set_range p arg w = copy_in range arg p w λ r. with_world (Control.set_range p r) w
  handle set_pose p arg w = copy_in pose arg p w λ r. with_world (Control.set_pose p r) w
  handle get_stats p arg w = copy_out stats arg (Control.get_stats p) p w
  handle poll_delta p arg w = let (d, p') = Control.poll p in copy_out poll arg d p' w

  unfoldable pub handle_if : Option Command → Pool → ℕ → k.World → Outcome
  unfolding handle
  handle_if none p arg w = (err enotty, p, w)
  handle_if (some c) p arg w = handle c p arg w

  unfoldable pub ioctl : File → ℕ → ℕ → Pool → k.World → Outcome
  unfolding handle_if
  ioctl filp cmd arg p w =
      if not filp.private_data
      then (err enodev, p, w)
      else if not (ioc_type cmd == magic)
      then (err enotty, p, w)
      else if ltb max_nr (ioc_nr cmd)
      then (err enotty, p, w)
      else handle_if (decode cmd) p arg w
