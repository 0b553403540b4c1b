-- ===== src/Pool/Unlocked.antt =====
-- The reads that `vcam_pool_dequeue` of src/vcam_pool.c makes after `vcam_pool_take` has released the
-- mutex: calls of other threads can come in between.
use vcam_kmod.Base.{false, ℕ, ◌≡◌, ◌≢◌, refl, sym, ap, ◌∙◌, arith, List, [], ◌∷◌, subst}
use vcam_kmod.Kernel.{Kernel, Result, ok, err}
use vcam_kmod.Uapi.{Dequeue}
use vcam_kmod.Pool.State.{Pool, slot_at, held}
use vcam_kmod.Pool.Consumer.{take, dequeue, dequeue_out, Taken}
use vcam_kmod.Pool.Step.{Call, step, run}
use vcam_kmod.Pool.Invariant.Defs.{IsValid}
use vcam_kmod.Pool.Invariant.Write.{slot_at-set}
use vcam_kmod.Pool.Safety.{step-IsValid}
use vcam_kmod.Pool.Lifecycle.{step-held}
use vcam_kmod.Pool.Delivery.{dequeue-ok}

module _ (k : Kernel) where
  -- None of the calls releases frame `n`.
  abbrev pub Keeps : ℕ → List (Call × k.World) → Type 0
  Keeps n [] = Unit {0}
  Keeps n ((c, _) ∷ cs) = (c ≢ Call.release n) × Keeps n cs

  -- A held slot stays as it is through such calls.
  run-held :
      (cs : List (Call × k.World)) {p : Pool} (j : ℕ)
      → IsValid p
      → (slot_at p.slot j).state ≡ held
      → Keeps (slot_at p.slot j).seq cs
      → slot_at (run k cs p).1.slot j ≡ slot_at p.slot j
  unfolding run
  run-held [] j v h keeps = refl
  run-held ((c, w) ∷ cs) {p} j v h (other, keeps) =
      let same = step-held k p v w c j h other in
      run-held cs j (step-IsValid k c w v) (ap (λ s. s.state) same ∙ h)
        (subst (λ s. Keeps s.seq cs) (sym same) keeps)
      ∙ same

  -- The reply is the same from any pool whose slot is the same.
  dequeue_out-same :
      (o : Result Taken) (p q : Pool) {d : Dequeue}
      → dequeue_out p o ≡ ok d
      → slot_at q.slot d.slot ≡ slot_at p.slot d.slot
      → dequeue_out q o ≡ ok d
  dequeue_out-same (err e) p q h same = h
  dequeue_out-same (ok t) p q {d} h same =
      let read : slot_at q.slot t.slot ≡ slot_at p.slot t.slot =
        subst (λ i. slot_at q.slot i ≡ slot_at p.slot i) (sym (ap number h)) same in
      ap
        (λ s. ok (record {
          seq = t.seq;
          slot = t.slot;
          resolved_angle_deg = s.resolved_angle;
          resolved_mirror = s.resolved_mirror;
          reserved = 0;
        }))
        read
      ∙ h
    where
      number : Result Dequeue → ℕ
      number (ok e) = e.slot
      number (err _) = 0

  -- `vcam_pool_dequeue` reads the pose from the slot after it has released the mutex. In a valid
  -- pool, if the dequeue delivers a frame and no call in between releases it, the reply is the one
  -- that reading under the mutex gives, and the slot is still held with that frame.
  pub dequeue-late :
      (p : Pool) (w : k.World) (cs : List (Call × k.World)) {d : Dequeue}
      → IsValid p
      → (dequeue k p w).0 ≡ ok d
      → Keeps d.seq cs
      → let q = (run k cs (take k false p w).1).1 in
        (dequeue_out q (take k false p w).0 ≡ (dequeue k p w).0)
        × ((slot_at q.slot d.slot).state ≡ held)
        × ((slot_at q.slot d.slot).seq ≡ d.seq)
  unfolding dequeue step
  dequeue-late p w cs {d} v e keeps =
      let (h, n, _, _, _) = dequeue-ok k p w v.pool e in
      let p1 = (take k false p w).1 in
      let here : slot_at p1.slot d.slot ≡ record (slot_at p.slot d.slot) { state = held } = ground (
        arith,
        h.slot,
        slot_at-set v.pool d.slot h.oldest.in_range
            (record (slot_at p.slot d.slot) { state = held }) d.slot,
      ) in
      let number : (slot_at p1.slot d.slot).seq ≡ d.seq = ap (λ s. s.seq) here ∙ sym n in
      let v1 : IsValid p1 = step-IsValid k Call.dequeue w v in
      let same =
        run-held cs d.slot v1 (ap (λ s. s.state) here)
          (subst (λ m. Keeps m cs) (sym number) keeps) in
      (
        dequeue_out-same (take k false p w).0 p1 (run k cs p1).1 e same ∙ sym e,
        ap (λ s. s.state) same ∙ ap (λ s. s.state) here,
        ap (λ s. s.seq) same ∙ number,
      )
