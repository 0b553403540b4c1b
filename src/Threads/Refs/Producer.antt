-- ===== src/Threads/Refs/Producer.antt =====
-- The references that the producer's calls of src/vcam_pool.c hold on their way.
use vcam_kmod.Base.{
  ℕ, ◌+◌, ◌≡◌, ◌<◌, inl, inr, refl, arith, Bool, true, false, not, ◌||◌, leb, Option, none, some,
  Bool-cases, if◌then◌else◌, set,
}
use vcam_kmod.Base.Int.{ℤ, pos, ltb_ℤ}
use vcam_kmod.Uapi.{Format}
use vcam_kmod.Kernel.{Kernel, CountsRefs, Result, ok, err, einval, enoent, ebusy, one_at}
use vcam_kmod.Logic.Format.Laws.{format_validate-err}
use vcam_kmod.Pool.State.{
  Pool, slot_at, is_unbound, is_idle, is_filled, is_held, reject_unknown, reject_busy, inc64,
}
use vcam_kmod.Pool.Producer.{find_unbound, registered, unregistered, submitted, put_if, bind_slot}
use vcam_kmod.Pool.Step.{Reply}
use vcam_kmod.Pool.Invariant.Defs.{IsValid}
use vcam_kmod.Pool.Invariant.Find.{find_unbound-some}
use vcam_kmod.Pool.Refs.Held.{held_refs-set, held_refs-set_same, slot_refs-le}
use vcam_kmod.Pool.Refs.Calls.{given}
use vcam_kmod.Threads.Prog.{done, unlock}
use vcam_kmod.Threads.Calls.{
  Thread, register_slot, register_buffer, register, unregister_slot, unregister, submit_slot,
  submit,
}
use vcam_kmod.Threads.Refs.Defs.{Holding, nothing_held, pool_refs, Fits, Moves, Locked, Carries}

module _ (k : Kernel) {limit : ℕ} (laws : CountsRefs k limit) where
  -- The end of a call that leaves the pool's references, and hands out none.
  pub leaves :
      (m : Holding) (q : Pool) (r : Reply)
      → ((b : ℕ) → m b ≡ pool_refs q b)
      → ((b : ℕ) → given b r ≡ 0)
      → Locked k limit m q (unlock (done r))
  leaves m q r e g = (nothing_held, λ b. omega (arith, e b), g)

  if-Locked :
      (c : Bool) (m : Holding) (p : Pool) (t u : Thread k)
      → Locked k limit m p t
      → Locked k limit m p u
      → Locked k limit m p (if c then t else u)
  if-Locked true m p t u x y = x
  if-Locked false m p t u x y = y

  register_slot-Locked :
      (o : Option ℕ) (p : Pool) (c : ℕ) (fd : ℤ) (fmt : Format)
      → IsValid p
      → find_unbound p.nslots 0 p.slot ≡ o
      → Locked k limit (λ b. pool_refs p b + one_at c b) p (register_slot k o p c fd fmt)
  unfolding register_slot
  register_slot-Locked none p c fd fmt v e = (
    one_at c,
    λ b. refl,
    λ w f. (
      nothing_held,
      λ b.
          let held : one_at c c ≡ 1 = ground arith in
          omega (arith, laws.put c w b (omega (arith, held, f.real c))),
      λ b. refl,
    ),
  )
  register_slot-Locked (some i) p c fd fmt v e =
      let (_, h, u) = find_unbound-some p.nslots 0 p.slot i e in
      leaves _ (bind_slot p i c fd fmt) (Reply.slot (ok i))
        (λ b.
          ground (
            arith,
            v.pool.each i,
            held_refs-set b p.slot i (registered (slot_at p.slot i) c fd fmt),
          ))
        (λ b. refl)

  register_buffer-Carries :
      (r : Result ℕ × k.World) (w : k.World) (fd : ℤ) (fmt : Format)
      → Fits k limit nothing_held w
      → k.dma_buf_get fd w ≡ r
      → (n : Holding) × Moves k limit w r.1 nothing_held n
        × Carries k limit n (register_buffer k r.0 fd fmt)
  unfolding register_buffer
  register_buffer-Carries (err e, w') w fd fmt f got =
      (nothing_held, λ b. omega (arith, laws.get_err fd w b got), λ b. refl)
  register_buffer-Carries (ok c, w') w fd fmt f got = (
    one_at c,
    λ b. omega (arith, laws.get_ok fd w b got (f.room c)),
    λ p v. register_slot-Locked (find_unbound p.nslots 0 p.slot) p c fd fmt v refl,
  )

  pub register-Carries : (fd : ℤ) (fmt : Format) → Carries k limit nothing_held (register k fd fmt)
  unfolding register
  register-Carries fd fmt = elim (Bool-cases (ltb_ℤ fd (pos 0))) [
    | inl a ↦ rw a (λ b. refl)
    | inr a ↦ elim (format_validate-err fmt) [
      | inl good ↦
          rw (a, good) (λ w f. register_buffer-Carries (k.dma_buf_get fd w) w fd fmt f refl)
      | inr bad ↦ rw (a, bad) (λ b. refl)
    ]
  ]

  -- The pool's own references of a slot that is cleared.
  cleared-Locked :
      (o : Option ℕ) (i : ℕ) (p : Pool) (m : Holding)
      → IsValid p
      → (slot_at p.slot i).dbuf ≡ o
      → i < p.nslots
      → ((b : ℕ) → m b ≡ pool_refs p b)
      → (w : k.World) → Fits k limit m w
      → Moves k limit w
          (put_if k o w)
          m
          (pool_refs (record p { slot = set p.slot i (unregistered (slot_at p.slot i)) }))
  unfolding put_if
  cleared-Locked none i p m v e h same w f b = ground (
    arith,
    same b,
    v.pool.count,
    v.pool.size,
    held_refs-set b p.slot i (unregistered (slot_at p.slot i)),
  )
  cleared-Locked (some c) i p m v e h same w f b =
      let real = slot_refs-le c p.slot i in
      ground (
        arith,
        same b,
        same c,
        f.real c,
        real,
        v.pool.count,
        v.pool.size,
        held_refs-set b p.slot i (unregistered (slot_at p.slot i)),
        laws.put c w b,
      )

  unregister_slot-Locked :
      (i : ℕ) (p : Pool) (m : Holding)
      → IsValid p
      → ((b : ℕ) → m b ≡ pool_refs p b)
      → Locked k limit m p (unregister_slot k i p)
  unfolding unregister_slot
  unregister_slot-Locked i p m v same = elim (Bool-cases (leb p.nslots i)) [
    | inl a ↦ rw a (leaves m (reject_unknown p) (Reply.done (err enoent)) same (λ b. refl))
    | inr a ↦
        let s = slot_at p.slot i in
        rw a (
          if-Locked (is_filled s.state || is_held s.state) m p _ _
            (leaves m (reject_busy p) (Reply.done (err ebusy)) same (λ b. refl))
            (if-Locked (is_unbound s.state) m p _ _
              (leaves m p (Reply.done (err einval)) same (λ b. refl))
              (λ w f. (
                pool_refs (record p { slot = set p.slot i (unregistered s) }),
                cleared-Locked s.dbuf i p m v refl (ground arith) same w f,
                leaves _ (record p { slot = set p.slot i (unregistered s) }) (Reply.done (ok tt))
                    (λ b. refl) (λ b. refl),
              ))))
  ]

  pub unregister-Carries : (i : ℕ) → Carries k limit nothing_held (unregister k i)
  unfolding unregister
  unregister-Carries i p v = unregister_slot-Locked i p _ v (λ b. omega arith)

  submit_slot-Locked :
      (i q : ℕ) (t : ℤ) (rot flags : ℕ) (p : Pool) (m : Holding)
      → ((b : ℕ) → m b ≡ pool_refs p b)
      → Locked k limit m p (submit_slot k i q t rot flags p)
  unfolding submit_slot
  submit_slot-Locked i q t rot flags p m same =
      let s = slot_at p.slot i in
      if-Locked (leb p.nslots i || is_unbound s.state) m p _ _
        (leaves m (reject_unknown p) (Reply.done (err enoent)) same (λ b. refl))
        (if-Locked (not (is_idle s.state)) m p _ _
          (leaves m (reject_busy p) (Reply.done (err ebusy)) same (λ b. refl))
          (if-Locked (leb q p.last_submitted_seq) m p _ _
            (leaves m (reject_unknown p) (Reply.done (err einval)) same (λ b. refl))
            (leaves m
              (record p {
                slot = set p.slot i (submitted p s q t rot flags);
                last_submitted_seq = q;
                stats = record (p.stats) { submitted = inc64 p.stats.submitted };
              })
              (Reply.done (ok tt))
              (λ b.
                omega
                  (arith, same b, held_refs-set_same b p.slot i (submitted p s q t rot flags) refl))
              (λ b. refl))))

  pub submit-Carries :
      (i q : ℕ) (t : ℤ) (rot flags : ℕ) → Carries k limit nothing_held (submit k i q t rot flags)
  unfolding submit
  submit-Carries i q t rot flags p v = submit_slot-Locked i q t rot flags p _ (λ b. omega arith)
