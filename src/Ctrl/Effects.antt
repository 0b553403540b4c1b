-- ===== src/Ctrl/Effects.antt =====
-- The effect of an ioctl of src/vcam_ctrl.c on the pool, in terms of the pool's calls.
use vcam_kmod.Base.{
  ℕ, ◌≡◌, ◌⊎◌, inl, inr, refl, arith, Bool, true, false, none, some, Option, Option-cases,
  Bool-cases, not, ltb, ◌==◌,
}
use vcam_kmod.Kernel.{Kernel, Result, ok, err}
use vcam_kmod.Uapi.{Struct, Val}
use vcam_kmod.Uapi.Ioc.{
  Command, get_version, register_buf, unregister_buf, submit, dequeue_frame, release, set_range,
  set_pose, get_stats, poll_delta, ioc_type, ioc_nr, magic, max_nr,
}
use vcam_kmod.Pool.State.{Pool}
use vcam_kmod.Pool.Producer
use vcam_kmod.Pool.Consumer
use vcam_kmod.Pool.Control
use vcam_kmod.Pool.Step.{Call, step}
use vcam_kmod.Pool.Invariant.Defs.{IsValid}
use vcam_kmod.Pool.Safety.{step-IsValid}
use vcam_kmod.Ctrl.Dispatch.{
  File, Outcome, decode, copy_in, handle, handle_if, ioctl, register_out, dequeue_done,
}

-- The calls that a command leads to: a client of /dev/vcam cannot acquire, peek, attach or choose
-- the backend.
abbrev pub reachable : Call → Bool
reachable Call.acquire = false
reachable Call.peek = false
reachable (Call.set_backend _) = false
reachable Call.attach = false
reachable _ = true

module _ (k : Kernel) (p : Pool) (w : k.World) where
  -- The pool is as it was, or as one such call makes it.
  abbrev Stepped : Pool → Type 0
  Stepped q = (q ≡ p) ⊎ ((c : Call) × (reachable c ≡ true) × (q ≡ (step k c p w).1))

  copy_in-Stepped :
      (s : Struct) (arg : ℕ) (next : Val s → Outcome k)
      → ((v : Val s) → Stepped (next v).1)
      → Stepped (copy_in k s arg p w next).1
  unfolding copy_in
  copy_in-Stepped s arg next h = elim (Option-cases (k.copy_from_user s arg w)) [
    | inl e ↦ rw (e, copy_in) (inl refl)
    | inr (v, e) ↦ rw (e, copy_in) (h v)
  ]

  register_out-pool :
      (f : Val Struct.frame) (arg : ℕ) (o : Result ℕ × Pool × k.World)
      → (register_out k f arg o).1 ≡ o.1
  unfolding register_out
  register_out-pool f arg (ok i, q, w') = refl
  register_out-pool f arg (err e, q, w') = refl

  dequeue_done-pool :
      (arg : ℕ) (o : Result (Val Struct.dequeue) × Pool × k.World) → (dequeue_done k arg o).1 ≡ o.1
  unfolding dequeue_done
  dequeue_done-pool arg (ok d, q, w') = refl
  dequeue_done-pool arg (err e, q, w') = refl

  handle-Stepped : (c : Command) (arg : ℕ) → Stepped (handle k c p arg w).1
  unfolding handle step
  handle-Stepped get_version arg = inl refl
  handle-Stepped register_buf arg =
      copy_in-Stepped _ arg _ λ f. inr (Call.register f.fd f.fmt, refl, register_out-pool f arg _)
  handle-Stepped unregister_buf arg =
      copy_in-Stepped _ arg _ λ i. inr (Call.unregister i, refl, refl)
  handle-Stepped submit arg =
      copy_in-Stepped _ arg _
        λ f. inr (Call.submit f.slot f.seq f.timestamp_ns f.rotation_deg f.flags, refl, refl)
  handle-Stepped dequeue_frame arg = inr (Call.dequeue, refl, dequeue_done-pool arg _)
  handle-Stepped release arg = copy_in-Stepped _ arg _ λ q. inr (Call.release q, refl, refl)
  handle-Stepped set_range arg = copy_in-Stepped _ arg _ λ r. inr (Call.set_range r, refl, refl)
  handle-Stepped set_pose arg = copy_in-Stepped _ arg _ λ r. inr (Call.set_pose r, refl, refl)
  handle-Stepped get_stats arg = inl refl
  handle-Stepped poll_delta arg = inr (Call.poll, refl, refl)

  handle_if-Stepped : (o : Option Command) (arg : ℕ) → Stepped (handle_if k o p arg w).1
  unfolding handle_if
  handle_if-Stepped none arg = inl refl
  handle_if-Stepped (some c) arg = handle-Stepped c arg

  -- An ioctl, whatever its file, its number, its argument and the user's memory, leaves the pool as
  -- it was or as one of the pool's calls makes it, and that call is not acquire, peek, attach or
  -- set_backend.
  ioctl-Stepped : (f : File) (cmd arg : ℕ) → Stepped (ioctl k f cmd arg p w).1
  unfolding ioctl
  ioctl-Stepped f cmd arg = elim (Bool-cases (not f.private_data)) [
    | inl a ↦ rw a (inl refl)
    | inr a ↦ elim (Bool-cases (not (ioc_type cmd == magic))) [
      | inl b ↦ rw (a, b) (inl refl)
      | inr b ↦ elim (Bool-cases (ltb max_nr (ioc_nr cmd))) [
        | inl c ↦ rw (a, b, c) (inl refl)
        | inr c ↦ rw (a, b, c) (handle_if-Stepped (decode cmd) arg)
      ]
    ]
  ]

  -- An ioctl keeps the invariant of the pool.
  pub ioctl-IsValid : (f : File) (cmd arg : ℕ) → IsValid p → IsValid (ioctl k f cmd arg p w).1
  ioctl-IsValid f cmd arg v = elim (ioctl-Stepped f cmd arg) [
    | inl e ↦ rw e v
    | inr (c, _, e) ↦ rw e (step-IsValid k c w v)
  ]

  step-attached :
      (c : Call)
      → reachable c ≡ true
      → ((step k c p w).1.client_attached ≡ p.client_attached)
        × ((step k c p w).1.backend ≡ p.backend)
  unfolding step Producer.register Producer.unregister Producer.submit Consumer.take
      Consumer.dequeue Consumer.release Control.poll Control.set_range Control.set_pose
  step-attached (Call.register fd fmt) h = ground arith
  step-attached c h = ground arith

  -- No ioctl changes the pool's attached flag or its backend.
  pub ioctl-attached :
      (f : File) (cmd arg : ℕ)
      → let (_, q, _) = ioctl k f cmd arg p w in
        (q.client_attached ≡ p.client_attached) × (q.backend ≡ p.backend)
  ioctl-attached f cmd arg = elim (ioctl-Stepped f cmd arg) [
    | inl e ↦ rw e (refl, refl)
    | inr (c, h, e) ↦ rw e (step-attached c h)
  ]
