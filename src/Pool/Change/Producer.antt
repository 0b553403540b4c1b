-- ===== src/Pool/Change/Producer.antt =====
-- The changes of the producer's calls of src/vcam_pool.c.
use vcam_kmod.Base.{
  ℕ, ◌≡◌, none, some, Option, arith, inl, inr, ◌⊎◌, refl, not, ◌||◌, leb, Bool-cases,
}
use vcam_kmod.Base.Int.{ℤ, pos, ltb_ℤ}
use vcam_kmod.Uapi.{Format}
use vcam_kmod.Kernel.{Kernel, Result, ok, err}
use vcam_kmod.Logic.Format.{format_validate}
use vcam_kmod.Logic.Format.Laws.{format_validate-err}
use vcam_kmod.Pool.State.{
  Pool, SlotState, is_unbound, is_idle, slot_at, filled, unbound, held, idle,
}
use vcam_kmod.Pool.Producer.{
  register, register_got, register_free, unregister, submit, find_unbound,
}
use vcam_kmod.Pool.Step.{Call, Reply, done}
use vcam_kmod.Pool.Invariant.Find.{find_unbound-some}
use vcam_kmod.Pool.Change.Defs.{Change, keep, bind, unbind, fill}

slot-cases : (s : SlotState) → (s ≡ unbound) ⊎ (s ≡ idle) ⊎ (s ≡ filled) ⊎ (s ≡ held)
slot-cases s = ground arith

module _ (p : Pool) where
  pub submit-Change :
      (i q : ℕ) (t : ℤ) (rot flags : ℕ)
      → Change
          (Call.submit i q t rot flags)
          (done (submit p i q t rot flags).0)
          p
          (submit p i q t rot flags).1
  unfolding submit
  submit-Change i q t rot flags =
      elim (Bool-cases (leb p.nslots i || is_unbound (slot_at p.slot i).state)) [
        | inl a ↦ rw a (keep refl (ground arith) (refl, refl))
        | inr a ↦ elim (Bool-cases (not (is_idle (slot_at p.slot i).state))) [
          | inl b ↦ rw (a, b) (keep refl (ground arith) (refl, refl))
          | inr b ↦ elim (Bool-cases (leb q p.last_submitted_seq)) [
            | inl c ↦ rw (a, b, c) (keep refl (ground arith) (refl, refl))
            | inr c ↦
                rw (a, b, c)
                  (fill i q t rot flags refl (ground arith) (ground arith) (ground arith) refl refl
                    (refl, refl))
          ]
        ]
      ]

module _ (k : Kernel) (p : Pool) (w : k.World) where
  pub unregister-Change :
      (i : ℕ) → Change (Call.unregister i) (done (unregister k p i w).0) p (unregister k p i w).1
  unfolding unregister
  unregister-Change i = elim (Bool-cases (leb p.nslots i)) [
    | inl a ↦ rw a (keep refl (ground arith) (refl, refl))
    | inr a ↦ elim (slot-cases (slot_at p.slot i).state) [
      | inl u ↦ rw (a, u) (keep refl (ground arith) (refl, refl))
      | inr (inl u) ↦ rw (a, u) (unbind i refl u (ground arith) (ground arith) (refl, refl))
      | inr (inr (inl u)) ↦ rw (a, u) (keep refl (ground arith) (refl, refl))
      | inr (inr (inr u)) ↦ rw (a, u) (keep refl (ground arith) (refl, refl))
    ]
  ]

  register_free-Change :
      (o : Option ℕ) (w : k.World) (b : ℕ) (fd : ℤ) (fmt : Format)
      → find_unbound p.nslots 0 p.slot ≡ o
      → format_validate fmt ≡ ok tt
      → Change
          (Call.register fd fmt)
          (Reply.slot (register_free k o p b fd fmt w).0)
          p
          (register_free k o p b fd fmt w).1
  unfolding register_free
  register_free-Change none w b fd fmt e good = keep refl (ground arith) (refl, refl)
  register_free-Change (some i) w b fd fmt e good =
      let (_, h, u) = find_unbound-some p.nslots 0 p.slot i e in
      bind i b fd fmt refl (ground arith) good (ground arith) (ground arith) (refl, refl)

  register_got-Change :
      (r : Result ℕ × k.World) (fd : ℤ) (fmt : Format)
      → format_validate fmt ≡ ok tt
      → Change
          (Call.register fd fmt)
          (Reply.slot (register_got k r p fd fmt).0)
          p
          (register_got k r p fd fmt).1
  unfolding register_got
  register_got-Change (ok b, w') fd fmt good =
      register_free-Change (find_unbound p.nslots 0 p.slot) w' b fd fmt refl good
  register_got-Change (err e, w') fd fmt good = keep refl (ground arith) (refl, refl)

  pub register-Change :
      (fd : ℤ) (fmt : Format)
      → Change
          (Call.register fd fmt)
          (Reply.slot (register k p fd fmt w).0)
          p
          (register k p fd fmt w).1
  unfolding register
  register-Change fd fmt = elim (Bool-cases (ltb_ℤ fd (pos 0))) [
    | inl a ↦ rw a (keep refl (ground arith) (refl, refl))
    | inr a ↦ elim (format_validate-err fmt) [
      | inl good ↦ rw (a, good) (register_got-Change (k.dma_buf_get fd w) fd fmt good)
      | inr bad ↦ rw (a, bad) (keep refl (ground arith) (refl, refl))
    ]
  ]
