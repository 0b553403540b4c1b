-- ===== src/Pool/Stream/Producer.antt =====
-- The producer's calls of src/vcam_pool.c on the stream of frames.
use vcam_kmod.Base.{ℕ, ◌≡◌, inl, inr, refl, arith, Option, none, some, Bool-cases}
use vcam_kmod.Base.Int.{ℤ, pos, ltb_ℤ}
use vcam_kmod.Uapi.{Format}
use vcam_kmod.Kernel.{Kernel, Result, Errno, ok, err}
use vcam_kmod.Logic.Format.Laws.{format_validate-err}
use vcam_kmod.Pool.State.{Pool, slot_at, idle}
use vcam_kmod.Pool.Producer.{
  register, register_got, register_free, unregister, submit, find_unbound, unregistered, bind_slot,
}
use vcam_kmod.Pool.Step.{Call, Reply}
use vcam_kmod.Pool.Answers.{submit-ok}
use vcam_kmod.Pool.Invariant.Defs.{IsValid}
use vcam_kmod.Pool.Invariant.Find.{find_unbound-some}
use vcam_kmod.Pool.Change.Defs.{Writes}
use vcam_kmod.Pool.Stream.Defs.{Moves, view}
use vcam_kmod.Pool.Stream.Writes.{Keeps-slots, bind-Binds, unbind-Unbinds, fill-Accepts}

submit-nslots :
    (p : Pool) (i seq : ℕ) (t : ℤ) (rot flags : ℕ)
    → (submit p i seq t rot flags).1.nslots ≡ p.nslots
unfolding submit
submit-nslots p i seq t rot flags = ground arith

submit-err :
    (p : Pool) (i seq : ℕ) (t : ℤ) (rot flags : ℕ) {x : Errno}
    → (submit p i seq t rot flags).0 ≡ err x
    → (submit p i seq t rot flags).1.slot ≡ p.slot
unfolding submit
submit-err p i seq t rot flags e = ground arith

unregister-ok :
    (k : Kernel) (p : Pool) (i : ℕ) (w : k.World)
    → (unregister k p i w).0 ≡ ok tt
    → ((slot_at p.slot i).state ≡ idle)
      × Writes p (unregister k p i w).1 i (unregistered (slot_at p.slot i))
unfolding unregister
unregister-ok k p i w e = ground arith

unregister-err :
    (k : Kernel) (p : Pool) (i : ℕ) (w : k.World) {x : Errno}
    → (unregister k p i w).0 ≡ err x
    → (unregister k p i w).1.slot ≡ p.slot
unfolding unregister
unregister-err k p i w e = ground arith

module _ (p : Pool) (v : IsValid p) where
  pub submit-Moves :
      (i seq : ℕ) (t : ℤ) (rot flags : ℕ)
      → Moves
          (Call.submit i seq t rot flags)
          (Reply.done (submit p i seq t rot flags).0)
          (view p)
          (view (submit p i seq t rot flags).1)
  submit-Moves i seq t rot flags = by_answer (submit p i seq t rot flags).0 refl
    where
      by_answer :
          (r : Result (Unit {0}))
          → (submit p i seq t rot flags).0 ≡ r
          → Moves
              (Call.submit i seq t rot flags)
              (Reply.done r)
              (view p)
              (view (submit p i seq t rot flags).1)
      by_answer (ok _) e =
          let (s, wrote, _) = submit-ok p i seq t rot flags e in
          fill-Accepts p (submit p i seq t rot flags).1 v.pool seq t rot flags s.is_free s.is_new
            (record {
              in_range = s.in_range;
              nslots = submit-nslots p i seq t rot flags;
              slot = wrote;
            })
      by_answer (err x) e =
          Keeps-slots p (submit p i seq t rot flags).1 (submit-err p i seq t rot flags e)

  module _ (k : Kernel) (w : k.World) where
    pub unregister-Moves :
        (i : ℕ)
        → Moves
            (Call.unregister i)
            (Reply.done (unregister k p i w).0)
            (view p)
            (view (unregister k p i w).1)
    unregister-Moves i = by_answer (unregister k p i w).0 refl
      where
        by_answer :
            (r : Result (Unit {0}))
            → (unregister k p i w).0 ≡ r
            → Moves (Call.unregister i) (Reply.done r) (view p) (view (unregister k p i w).1)
        by_answer (ok _) e =
            let (s, wrote) = unregister-ok k p i w e in
            unbind-Unbinds p (unregister k p i w).1 v.pool s wrote
        by_answer (err x) e = Keeps-slots p (unregister k p i w).1 (unregister-err k p i w e)

    register_free-Moves :
        (o : Option ℕ) (b : ℕ) (w' : k.World) (fd : ℤ) (fmt : Format)
        → find_unbound p.nslots 0 p.slot ≡ o
        → let (r, q, _) = register_free k o p b fd fmt w' in
          Moves (Call.register fd fmt) (Reply.slot r) (view p) (view q)
    unfolding register_free
    register_free-Moves none b w' fd fmt e = Keeps-slots p p refl
    register_free-Moves (some i) b w' fd fmt e =
        let (_, below, u) = find_unbound-some p.nslots 0 p.slot i e in
        bind-Binds p (bind_slot p i b fd fmt) v.pool b fd fmt (ground (arith, u))
          (record { in_range = omega (arith, below); nslots = refl; slot = refl })

    register_got-Moves :
        (o : Result ℕ × k.World) (fd : ℤ) (fmt : Format)
        → let (r, q, _) = register_got k o p fd fmt in
          Moves (Call.register fd fmt) (Reply.slot r) (view p) (view q)
    unfolding register_got
    register_got-Moves (err x, w') fd fmt = Keeps-slots p p refl
    register_got-Moves (ok b, w') fd fmt =
        register_free-Moves (find_unbound p.nslots 0 p.slot) b w' fd fmt refl

    pub register-Moves :
        (fd : ℤ) (fmt : Format)
        → let (r, q, _) = register k p fd fmt w in
          Moves (Call.register fd fmt) (Reply.slot r) (view p) (view q)
    unfolding register
    register-Moves fd fmt = elim (Bool-cases (ltb_ℤ fd (pos 0))) [
      | inl a ↦ rw (register, a) (Keeps-slots p p refl)
      | inr a ↦ elim (format_validate-err fmt) [
        | inl good ↦ rw (register, a, good) (register_got-Moves (k.dma_buf_get fd w) fd fmt)
        | inr bad ↦ rw (register, a, bad) (Keeps-slots p p refl)
      ]
    ]
