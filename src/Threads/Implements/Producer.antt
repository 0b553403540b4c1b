-- ===== src/Threads/Implements/Producer.antt =====
-- The producer of src/vcam_pool.c: register, unregister and submit as critical sections.
use vcam_kmod.Base.{ℕ, ◌≡◌, false, inl, inr, refl, not, ◌||◌, leb, Bool-cases, Option-cases}
use vcam_kmod.Base.Int.{ℤ, pos, ltb_ℤ}
use vcam_kmod.Uapi.{Format}
use vcam_kmod.Kernel.{Kernel, Result, ok, err, ebusy, einval, enoent}
use vcam_kmod.Logic.Format.{format_validate}
use vcam_kmod.Logic.Format.Laws.{format_validate-err}
use vcam_kmod.Pool.State.{is_unbound, is_idle, is_filled, is_held, slot_at}
use vcam_kmod.Pool.Producer.{find_unbound}
use vcam_kmod.Pool.Producer
use vcam_kmod.Pool.Step.{Call, Reply, step}
use vcam_kmod.Threads.Calls.{
  submit_slot, unregister_slot, register_slot, register_buffer, register, unregister, submit,
}
use vcam_kmod.Threads.Implements.Leaves.{leaves, finishes}
use vcam_kmod.Threads.Discipline.{Inside, Before}

module _ (k : Kernel) (w : k.World) where
  pub submit-Before :
      (i q : ℕ) (t : ℤ) (rot flags : ℕ)
      → Before k (Call.submit i q t rot flags) (submit k i q t rot flags)
  unfolding step submit submit_slot Producer.submit
  submit-Before i q t rot flags p =
      elim (Bool-cases (leb p.nslots i || is_unbound (slot_at p.slot i).state)) [
        | inl a ↦ rw (a, Inside) (finishes w (Reply.done (err enoent)) (rw a refl) (rw a refl))
        | inr a ↦ elim (Bool-cases (not (is_idle (slot_at p.slot i).state))) [
          | inl b ↦
              rw (a, b, Inside)
                (finishes w (Reply.done (err ebusy)) (rw (a, b) refl) (rw (a, b) refl))
          | inr b ↦ elim (Bool-cases (leb q p.last_submitted_seq)) [
            | inl d ↦
                rw (a, b, d, Inside)
                  (finishes w (Reply.done (err einval)) (rw (a, b, d) refl) (rw (a, b, d) refl))
            | inr d ↦
                rw (a, b, d, Inside)
                  (finishes w (Reply.done (ok tt)) (rw (a, b, d) refl) (rw (a, b, d) refl))
          ]
        ]
      ]

  pub unregister-Before : (i : ℕ) → Before k (Call.unregister i) (unregister k i)
  unfolding step unregister unregister_slot Producer.unregister
  unregister-Before i p = elim (Bool-cases (leb p.nslots i)) [
    | inl a ↦ rw (a, Inside) (finishes w (Reply.done (err enoent)) (rw a refl) (rw a refl))
    | inr a ↦
        elim (Bool-cases (is_filled (slot_at p.slot i).state || is_held (slot_at p.slot i).state)) [
          | inl b ↦
              rw (a, b, Inside)
                (finishes w (Reply.done (err ebusy)) (rw (a, b) refl) (rw (a, b) refl))
          | inr b ↦ elim (Bool-cases (is_unbound (slot_at p.slot i).state)) [
            | inl d ↦
                rw (a, b, d, Inside)
                  (leaves w (Reply.done (err einval)) (rw (a, b, d) refl) (rw (a, b, d) refl))
            | inr d ↦
                rw (a, b, d, Inside)
                  (λ v. finishes v (Reply.done (ok tt)) (rw (a, b, d) refl) (rw (a, b, d) refl))
          ]
        ]
  ]

  -- The rest of `register` once the buffer of state `v` has been taken.
  register_got-Before :
      (r : Result ℕ × k.World) (v : k.World) (fd : ℤ) (fmt : Format)
      → ltb_ℤ fd (pos 0) ≡ false
      → format_validate fmt ≡ ok tt
      → k.dma_buf_get fd v ≡ r
      → Before k (Call.register fd fmt) (register_buffer k r.0 fd fmt)
  unfolding step register_buffer register_slot Producer.register Producer.register_got
      Producer.register_free
  register_got-Before (err e, v') v fd fmt a good got =
      λ p. record { world = v; reply = rw (a, good, got) refl; pool = rw (a, good, got) refl }
  register_got-Before (ok b, v') v fd fmt a good got = λ p.
      elim (Option-cases (find_unbound p.nslots 0 p.slot)) [
        | inl n ↦
            rw (n, Inside)
              (
                Reply.slot (err ebusy),
                record {
                  world = v;
                  reply = rw (a, good, got, n) refl;
                  pool = rw (a, good, got, n) refl;
                },
                λ _. refl,
                λ _. refl,
              )
        | inr (i, n) ↦
            rw (n, Inside)
              (finishes v (Reply.slot (ok i)) (rw (a, good, got, n) refl)
                (rw (a, good, got, n) refl))
      ]

  pub register-Before :
      (fd : ℤ) (fmt : Format) → Before k (Call.register fd fmt) (register k fd fmt)
  unfolding step register Producer.register
  register-Before fd fmt = elim (Bool-cases (ltb_ℤ fd (pos 0))) [
    | inl a ↦ rw a (λ p. record { world = w; reply = rw a refl; pool = rw a refl })
    | inr a ↦ elim (format_validate-err fmt) [
      | inl good ↦
          rw (a, good, Inside) (λ v. register_got-Before (k.dma_buf_get fd v) v fd fmt a good refl)
      | inr bad ↦
          rw (a, bad) (λ p. record { world = w; reply = rw (a, bad) refl; pool = rw (a, bad) refl })
    ]
  ]
