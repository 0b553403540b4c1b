-- ===== src/Ctrl/Serves.antt =====
-- What each ioctl of src/vcam_ctrl.c does, in terms of the pool's calls and of the copies from and to
-- user memory.
use vcam_kmod.Base.{
  ℕ, ◌≡◌, ◌≢◌, ◌⊎◌, ◌∙◌, inl, inr, refl, sym, ap, arith, subst, true, false, none, some,
  Option-cases, Bool-cases, if◌then◌else◌,
}
use vcam_kmod.Kernel.{Kernel, Result, Errno, ok, err, efault, enodev, enotty}
use vcam_kmod.Uapi.{Struct, Val, Frame}
use vcam_kmod.Uapi
use vcam_kmod.Uapi.Ioc.{
  Command, get_version, register_buf, unregister_buf, submit, dequeue_frame, release, set_range,
  set_pose, get_stats, poll_delta, number,
}
use vcam_kmod.Pool.State.{Pool}
use vcam_kmod.Pool.Producer
use vcam_kmod.Pool.Consumer
use vcam_kmod.Pool.Control
use vcam_kmod.Pool.Step.{Call, Reply, step}
use vcam_kmod.Ctrl.Dispatch.{
  File, Outcome, decode, copy_in, copy_out, handle, handle_if, ioctl, register_out, dequeue_done,
}
use vcam_kmod.Ctrl.Encoding.{decode-number, decode_sound}
use vcam_kmod.Ctrl.Faults.{ioctl-handle}

module _ (k : Kernel) where
  -- The answer `v` is copied to the user, with the pool at `q` and the machine at `w`.
  abbrev pub Copies : (s : Struct) → ℕ → Val s → Pool → k.World → Outcome k → Type 0
  Copies s arg v q w o =
      let (done, w') = k.copy_to_user s arg v w in o ≡ (if done then ok tt else err efault, q, w')

  -- A call that answers with a slot, which is written to the frame of the user, or fails.
  abbrev pub Registers : ℕ → Frame → Reply × Pool × k.World → Outcome k → Type 0
  Registers arg f (r, q, w) o =
      ((i : ℕ) × (r ≡ Reply.slot (ok i)) × Copies Struct.frame arg (record f { slot = i }) q w o)
      ⊎ ((e : Errno) × (r ≡ Reply.slot (err e)) × (o ≡ (err e, q, w)))

  abbrev pub Delivers : ℕ → Reply × Pool × k.World → Outcome k → Type 0
  Delivers arg (r, q, w) o =
      ((d : Uapi.Dequeue) × (r ≡ Reply.frame (ok d)) × Copies Struct.dequeue arg d q w o)
      ⊎ ((e : Errno) × (r ≡ Reply.frame (err e)) × (o ≡ (err e, q, w)))

module _ (k : Kernel) (p : Pool) (w : k.World) where
  -- The argument is copied from the user, or the ioctl fails and nothing changes.
  abbrev pub Reads : (s : Struct) → ℕ → (Val s → Outcome k → Type 0) → Outcome k → Type 0
  Reads s arg rest o =
      ((k.copy_from_user s arg w ≡ none) × (o ≡ (err efault, p, w)))
      ⊎ ((v : Val s) × (k.copy_from_user s arg w ≡ some v) × rest v o)

  -- The ioctl is the call: its reply, its pool and its machine.
  abbrev pub Calls : Call → Outcome k → Type 0
  Calls c (r, q, w') = step k c p w ≡ (Reply.done r, q, w')

  -- What the ioctl of a command does.
  abbrev pub Serves : Command → ℕ → Outcome k → Type 0
  Serves get_version arg o =
      Copies k Struct.version arg
        (record { abi = 1; max_streams = 1; pool_size = p.nslots; reserved = 0 }) p w o
  Serves register_buf arg o =
      Reads Struct.frame arg (λ f o. Registers k arg f (step k (Call.register f.fd f.fmt) p w) o) o
  Serves unregister_buf arg o = Reads Struct.u32 arg (λ i o. Calls (Call.unregister i) o) o
  Serves submit arg o =
      Reads Struct.frame arg
        (λ f o. Calls (Call.submit f.slot f.seq f.timestamp_ns f.rotation_deg f.flags) o) o
  Serves dequeue_frame arg o = Delivers k arg (step k Call.dequeue p w) o
  Serves release arg o = Reads Struct.u64 arg (λ n o. Calls (Call.release n) o) o
  Serves set_range arg o = Reads Struct.range arg (λ r o. Calls (Call.set_range r) o) o
  Serves set_pose arg o = Reads Struct.pose arg (λ r o. Calls (Call.set_pose r) o) o
  Serves get_stats arg o = Copies k Struct.stats arg p.stats p w o
  Serves poll_delta arg o =
      let (r, q, w') = step k Call.poll p w in
      (d : Uapi.Poll) × (r ≡ Reply.polled d) × Copies k Struct.poll arg d q w' o

  copy_out-Copies :
      (s : Struct) (arg : ℕ) (v : Val s) (q : Pool) (w' : k.World)
      → Copies k s arg v q w' (copy_out k s arg v q w')
  unfolding copy_out
  copy_out-Copies s arg v q w' = elim (Bool-cases (k.copy_to_user s arg v w').0) [
    | inl e ↦ rw e refl
    | inr e ↦ rw e refl
  ]

  copy_in-Reads :
      (s : Struct) (arg : ℕ) (next : Val s → Outcome k) (rest : Val s → Outcome k → Type 0)
      → ((v : Val s) → rest v (next v))
      → Reads s arg rest (copy_in k s arg p w next)
  unfolding copy_in
  copy_in-Reads s arg next rest h = elim (Option-cases (k.copy_from_user s arg w)) [
    | inl e ↦ rw (e, copy_in) (inl (refl, refl))
    | inr (v, e) ↦ rw (e, copy_in) (inr (v, refl, h v))
  ]

  register_out-Registers :
      (arg : ℕ) (f : Frame) (o : Result ℕ × Pool × k.World)
      → Registers k arg f (Reply.slot o.0, o.1, o.2) (register_out k f arg o)
  unfolding register_out
  register_out-Registers arg f (ok i, q, w') =
      inl (i, refl, copy_out-Copies Struct.frame arg (record f { slot = i }) q w')
  register_out-Registers arg f (err e, q, w') = inr (e, refl, refl)

  dequeue_done-Delivers :
      (arg : ℕ) (o : Result Uapi.Dequeue × Pool × k.World)
      → Delivers k arg (Reply.frame o.0, o.1, o.2) (dequeue_done k arg o)
  unfolding dequeue_done
  dequeue_done-Delivers arg (ok d, q, w') = inl (d, refl, copy_out-Copies Struct.dequeue arg d q w')
  dequeue_done-Delivers arg (err e, q, w') = inr (e, refl, refl)

  handle-Serves : (c : Command) (arg : ℕ) → Serves c arg (handle k c p arg w)
  unfolding handle step Control.get_stats
  handle-Serves get_version arg = copy_out-Copies _ arg _ p w
  handle-Serves register_buf arg =
      copy_in-Reads Struct.frame arg _
        (λ f o. Registers k arg f (step k (Call.register f.fd f.fmt) p w) o)
        λ f. register_out-Registers arg f (Producer.register k p f.fd f.fmt w)
  handle-Serves unregister_buf arg =
      copy_in-Reads Struct.u32 arg _ (λ i o. Calls (Call.unregister i) o) λ i. refl
  handle-Serves submit arg =
      copy_in-Reads Struct.frame arg _
        (λ f o. Calls (Call.submit f.slot f.seq f.timestamp_ns f.rotation_deg f.flags) o) λ f. refl
  handle-Serves dequeue_frame arg = dequeue_done-Delivers arg (Consumer.dequeue k p w)
  handle-Serves release arg =
      copy_in-Reads Struct.u64 arg _ (λ n o. Calls (Call.release n) o) λ n. refl
  handle-Serves set_range arg =
      copy_in-Reads Struct.range arg _ (λ r o. Calls (Call.set_range r) o) λ r. refl
  handle-Serves set_pose arg =
      copy_in-Reads Struct.pose arg _ (λ r o. Calls (Call.set_pose r) o) λ r. refl
  handle-Serves get_stats arg = copy_out-Copies Struct.stats arg p.stats p w
  handle-Serves poll_delta arg =
      let (d, q) = Control.poll p in (d, refl, copy_out-Copies Struct.poll arg d q w)

  -- The outcomes of an ioctl.
  abbrev pub Dispatched : File → (cmd arg : ℕ) → Outcome k → Type 0
  Dispatched f cmd arg o =
      ((f.private_data ≡ false) × (o ≡ (err enodev, p, w)))
      ⊎ (((f.private_data ≡ true) × ((c : Command) × (cmd ≡ number c) × Serves c arg o))
          ⊎ ((f.private_data ≡ true) × ((c : Command) → cmd ≢ number c) × (o ≡ (err enotty, p, w))))

  ioctl-unknown :
      (f : File) (cmd arg : ℕ)
      → decode cmd ≡ none
      → f.private_data ≡ true
      → ioctl k f cmd arg p w ≡ (err enotty, p, w)
  unfolding ioctl handle_if
  ioctl-unknown f cmd arg d h = ground arith

  ioctl-closed :
      (f : File) (cmd arg : ℕ) → f.private_data ≡ false → ioctl k f cmd arg p w ≡ (err enodev, p, w)
  unfolding ioctl
  ioctl-closed f cmd arg h = ground arith

  -- An ioctl, whatever its file, its number, its argument and the user's memory. On a file without
  -- a pool it is refused with -ENODEV, and on a file with one a number that is no command's with
  -- -ENOTTY; nothing changes. The number of a command does what the command stands for: its
  -- argument is read from the user, or it fails with -EFAULT and nothing changes; then it is the
  -- pool's call of that name on that argument, with the call's pool, machine and error; and the
  -- answer of register, dequeue and poll, the version and the counters are written to the user, or
  -- the ioctl fails with -EFAULT, the pool's call made all the same.
  pub ioctl-Dispatched : (f : File) (cmd arg : ℕ) → Dispatched f cmd arg (ioctl k f cmd arg p w)
  ioctl-Dispatched f cmd arg = elim (Bool-cases f.private_data) [
    | inr closed ↦ inl (closed, ioctl-closed f cmd arg closed)
    | inl opened ↦ elim (Option-cases (decode cmd)) [
      | inl unknown ↦ inr (
          inr (
            opened,
            λ c e. let known = (decode-number c).0 in cc,
            ioctl-unknown f cmd arg unknown opened,
          ))
      | inr (c, found) ↦
          let same = decode_sound cmd c found in
          inr (
            inl (
              opened,
              (
                c,
                same,
                subst (Serves c arg)
                    (sym (ap (λ n. ioctl k f n arg p w) same ∙ ioctl-handle k p w f c arg opened))
                    (handle-Serves c arg),
              ),
            ))
    ]
  ]
