-- ===== src/Pool/Admission.antt =====
-- The conditions under which `vcam_pool_register` of src/vcam_pool.c takes a buffer in.
use vcam_kmod.Base.{
  ℕ, ◌<◌, ◌≡◌, ◌↔◌, inl, inr, refl, sym, subst, arith, false, Option, none, some, Bool-cases,
}
use vcam_kmod.Base.Int.{ℤ, pos, ltb_ℤ, ◌≤ℤ◌}
use vcam_kmod.Uapi.{Format}
use vcam_kmod.Kernel.{Kernel, Result, ok, err}
use vcam_kmod.Logic.Format.{format_validate}
use vcam_kmod.Logic.Format.Laws.{IsFormat, format_validate_iff, format_validate-err}
use vcam_kmod.Pool.State.{Pool, slot_at, unbound}
use vcam_kmod.Pool.Producer.{register, register_got, register_free, find_unbound}
use vcam_kmod.Pool.Invariant.Find.{find_unbound-some, find_unbound-none}

-- The reply is a slot.
abbrev pub IsOk : Result ℕ → Type 0
IsOk r = (i : ℕ) × (r ≡ ok i)

module _ (k : Kernel) (p : Pool) (w : k.World) (fd : ℤ) (fmt : Format) where
  -- The descriptor stands for a buffer, the geometry is right, and a slot is free.
  pub record Admissible : Type 0 where
    pub descriptor : pos 0 ≤ℤ fd
    pub geometry : IsFormat fmt
    pub buffer : (b : ℕ) × (w' : k.World) × (k.dma_buf_get fd w ≡ (ok b, w'))
    pub free : (j : ℕ) × (j < p.nslots) × ((slot_at p.slot j).state ≡ unbound)

  free-find :
      (o : Option ℕ) (b : ℕ) (w' : k.World)
      → find_unbound p.nslots 0 p.slot ≡ o
      → IsOk (register_free k o p b fd fmt w').0
      → (j : ℕ) × (j < p.nslots) × ((slot_at p.slot j).state ≡ unbound)
  unfolding register_free
  free-find none b w' e (i, h) = absurd (cc)
  free-find (some j) b w' e h =
      let (_, below, u) = find_unbound-some p.nslots 0 p.slot j e in
      (j, omega (arith, below), ground (arith, u))

  find-free :
      (o : Option ℕ) (b : ℕ) (w' : k.World)
      → find_unbound p.nslots 0 p.slot ≡ o
      → (j : ℕ) → j < p.nslots
      → (slot_at p.slot j).state ≡ unbound
      → IsOk (register_free k o p b fd fmt w').0
  unfolding register_free
  find-free none b w' e j h u =
      let full = find_unbound-none p.nslots 0 p.slot e j (omega arith) (omega arith) in
      absurd (ground (arith, full, u))
  find-free (some i) b w' e j h u = (i, refl)

  got-buffer :
      (o : Result ℕ × k.World)
      → k.dma_buf_get fd w ≡ o
      → IsOk (register_got k o p fd fmt).0
      → ((b : ℕ) × (w' : k.World) × (k.dma_buf_get fd w ≡ (ok b, w')))
        × ((j : ℕ) × (j < p.nslots) × ((slot_at p.slot j).state ≡ unbound))
  unfolding register_got
  got-buffer (ok b, w') e h = ((b, w', e), free-find _ b w' refl h)
  got-buffer (err x, w') e (i, h) = absurd (cc)

  registers :
      ltb_ℤ fd (pos 0) ≡ false
      → format_validate fmt ≡ ok tt
      → register k p fd fmt w ≡ register_got k (k.dma_buf_get fd w) p fd fmt
  unfolding register
  registers a good = rw (register, a, good) refl

  -- A buffer is registered exactly when its descriptor is not negative, its geometry is well
  -- formed, the kernel finds a buffer behind the descriptor, and one of the pool's slots is
  -- unbound.
  pub register_iff : IsOk (register k p fd fmt w).0 ↔ Admissible
  unfolding register register_got
  register_iff = (
    λ h. elim (Bool-cases (ltb_ℤ fd (pos 0))) [
      | inl a ↦ absurd (ground (arith, h.1, a))
      | inr a ↦ elim (format_validate-err fmt) [
        | inl good ↦
            let (buffer, free) = got-buffer _ refl (subst (λ o. IsOk o.0) (registers a good) h) in
            record {
              descriptor = ground (arith, a);
              geometry = (format_validate_iff fmt).0 good;
              buffer = buffer;
              free = free;
            }
        | inr bad ↦ absurd (ground (arith, h.1, a, bad))
      ]
    ],
    λ s.
        let good = (format_validate_iff fmt).1 s.geometry in
        let (b, w', e) = s.buffer in
        let (j, below, u) = s.free in
        subst (λ o. IsOk o.0) (sym (registers (ground (arith, s.descriptor)) good))
          (subst (λ o. IsOk (register_got k o p fd fmt).0) (sym e)
            (find-free _ b w' refl j below u)),
  )
