-- ===== src/Pool/Conserved/Producer.antt =====
-- The counters through the producer's calls of src/vcam_pool.c.
use vcam_kmod.Base.{ℕ, ◌≡◌, refl, arith, none, some, Option, inl, inr, not, ◌||◌, leb, Bool-cases}
use vcam_kmod.Base.Int.{ℤ, pos, ltb_ℤ}
use vcam_kmod.Kernel.{Kernel, Result, ok, err}
use vcam_kmod.Pool.State.{Pool, slot_at, is_unbound, is_idle}
use vcam_kmod.Uapi.{Format}
use vcam_kmod.Logic.Format.Laws.{format_validate-err}
use vcam_kmod.Pool.Invariant.Find.{find_unbound-some}
use vcam_kmod.Pool.Producer.{
  submit, submitted, register, register_got, register_free, registered, find_unbound, unregister,
  unregistered,
}
use vcam_kmod.Pool.Change.Keeps.{PoolSlots}
use vcam_kmod.Pool.Conserved.Defs.{IsConserved, counts}

module _ (p : Pool) (v : PoolSlots p) (b : IsConserved p) where
  pub submit-IsConserved :
      (i q : ℕ) (t : ℤ) (rot flags : ℕ) → IsConserved (submit p i q t rot flags).1
  unfolding submit
  submit-IsConserved i q t rot flags =
      elim (Bool-cases (leb p.nslots i || is_unbound (slot_at p.slot i).state)) [
        | inl a ↦ rw a (ground (arith, b.came, b.taken, b.bound, b.wraps))
        | inr a ↦ elim (Bool-cases (not (is_idle (slot_at p.slot i).state))) [
          | inl c ↦ rw (a, c) (ground (arith, b.came, b.taken, b.bound, b.wraps))
          | inr c ↦ elim (Bool-cases (leb q p.last_submitted_seq)) [
            | inl d ↦ rw (a, c, d) (ground (arith, b.came, b.taken, b.bound, b.wraps))
            | inr d ↦
                let (f, h) =
                  counts p v i (submitted p (slot_at p.slot i) q t rot flags) (ground arith) in
                rw (a, c, d) (ground (arith, f, h, b.came, b.taken, b.bound, b.wraps))
          ]
        ]
      ]

  module _ (k : Kernel) (w : k.World) where
    pub unregister-IsConserved : (i : ℕ) → IsConserved (unregister k p i w).1
    unfolding unregister
    unregister-IsConserved i = elim (Bool-cases (leb p.nslots i)) [
      | inl a ↦ rw a (ground (arith, b.came, b.taken, b.bound, b.wraps))
      | inr a ↦
          let (f, h) = counts p v i (unregistered (slot_at p.slot i)) (ground arith) in
          rw a (ground (arith, f, h, b.came, b.taken, b.bound, b.wraps))
    ]

    register_free-IsConserved :
        (o : Option ℕ) (v' : k.World) (c : ℕ) (fd : ℤ) (fmt : Format)
        → find_unbound p.nslots 0 p.slot ≡ o
        → IsConserved (register_free k o p c fd fmt v').1
    unfolding register_free
    register_free-IsConserved none v' c fd fmt e = b
    register_free-IsConserved (some i) v' c fd fmt e =
        let (_, low, u) = find_unbound-some p.nslots 0 p.slot i e in
        let (f, h) = counts p v i (registered (slot_at p.slot i) c fd fmt) (ground arith) in
        ground (arith, f, h, u, b.came, b.taken, b.bound, b.wraps)

    register_got-IsConserved :
        (r : Result ℕ × k.World) (fd : ℤ) (fmt : Format) → IsConserved (register_got k r p fd fmt).1
    unfolding register_got
    register_got-IsConserved (ok c, v') fd fmt = register_free-IsConserved _ v' c fd fmt refl
    register_got-IsConserved (err e, v') fd fmt = b

    pub register-IsConserved : (fd : ℤ) (fmt : Format) → IsConserved (register k p fd fmt w).1
    unfolding register
    register-IsConserved fd fmt = elim (Bool-cases (ltb_ℤ fd (pos 0))) [
      | inl a ↦ rw a b
      | inr a ↦ elim (format_validate-err fmt) [
        | inl good ↦ rw (a, good) (register_got-IsConserved _ fd fmt)
        | inr bad ↦ rw (a, bad) b
      ]
    ]
