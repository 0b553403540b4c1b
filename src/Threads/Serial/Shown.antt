-- ===== src/Threads/Serial/Shown.antt =====
-- The slot of a frame that a dequeue of src/vcam_pool.c has delivered, while nobody releases it.
use vcam_kmod.Base.{
  ℕ, ◌≡◌, ◌≢◌, ◌∙◌, inl, inr, refl, sym, ap, subst, arith, Option, none, some, ◌==◌, ◌∷◌,
  Bool-cases,
}
use vcam_kmod.Uapi.{Dequeue}
use vcam_kmod.Kernel.{Kernel, Result, ok}
use vcam_kmod.Pool.State.{Pool, slot_at, filled, held}
use vcam_kmod.Pool.Step.{Call, Reply, step, frame}
use vcam_kmod.Pool.Consumer.{dequeue}
use vcam_kmod.Pool.Invariant.Defs.{IsValid}
use vcam_kmod.Pool.Invariant.Write.{slot_at-set}
use vcam_kmod.Pool.Delivery.{dequeue-ok}
use vcam_kmod.Threads.Calls.{Thread}
use vcam_kmod.Threads.Discipline.{Does, Guarded, Shown, Shows}
use vcam_kmod.Threads.Implements.Leaves.{Does-Guarded}
use vcam_kmod.Threads.Serial.Runs.{Serial-IsValid}
use vcam_kmod.Threads.Serial.Defs.{Order, Serial, origin, then_call, answer, Owns, Unreleased}

module _ (k : Kernel) where
  -- A frame that a dequeue delivers has been waiting, and is in its slot.
  dequeue-Shown :
      (p : Pool) (w : k.World) {d : Dequeue}
      → IsValid p
      → (dequeue k p w).0 ≡ ok d
      → ((slot_at p.slot d.slot).state ≡ filled) × Shown d (dequeue k p w).1
  dequeue-Shown p w {d} v e =
      let (h, n, a, m, _) = dequeue-ok k p w v.pool e in
      let here : slot_at (dequeue k p w).1.slot d.slot
          ≡ record (slot_at p.slot d.slot) { state = held } =
        ground (
          arith,
          h.slot,
          slot_at-set v.pool d.slot h.oldest.in_range
              (record (slot_at p.slot d.slot) { state = held }) d.slot,
        ) in
      (
        h.oldest.is_full,
        record {
          state = ap (λ s. s.state) here;
          seq = ap (λ s. s.seq) here ∙ sym n;
          angle = ap (λ s. s.resolved_angle) here ∙ sym a;
          mirror = ap (λ s. s.resolved_mirror) here ∙ sym m;
        },
      )

  step-Shown :
      (c : Call) (p : Pool) (w : k.World) (d : Dequeue)
      → IsValid p
      → (step k c p w).0 ≡ frame (ok d)
      → ((slot_at p.slot d.slot).state ≡ filled) × Shown d (step k c p w).1
  unfolding step
  step-Shown (Call.register fd fmt) p w d v e = cc
  step-Shown (Call.unregister i) p w d v e = cc
  step-Shown (Call.submit i q t rot flags) p w d v e = cc
  step-Shown Call.acquire p w d v e = cc
  step-Shown Call.dequeue p w d v e = dequeue-Shown p w v (ap of_frame e)
    where
      of_frame : Reply → Result Dequeue
      of_frame (frame r) = r
      of_frame _ = ok d
  step-Shown (Call.release q) p w d v e = cc
  step-Shown Call.peek p w d v e = cc
  step-Shown Call.poll p w d v e = cc
  step-Shown (Call.set_range r) p w d v e = cc
  step-Shown (Call.set_pose r) p w d v e = cc
  step-Shown (Call.set_backend b) p w d v e = cc
  step-Shown Call.attach p w d v e = cc
  step-Shown Call.get_stats p w d v e = cc

-- No call delivers a frame without an effect.
pub delivery_has_effect :
    {k : Kernel} {c : Call} {p : Pool} {d : Dequeue} → IsValid p → Does k c p (frame (ok d)) p → ⊥
delivery_has_effect {k} {c} {p} {d} v does =
    let (full, shown) = step-Shown k c p does.world d v does.reply in
    let now : Shown d p = subst (Shown d) does.pool shown in let held_now = now.state in cc

Guarded-Shown :
    {c : Call} {p q : Pool} {d : Dequeue}
    → IsValid p
    → Guarded c p q
    → c ≢ Call.release d.seq
    → Shown d p
    → Shown d q
Guarded-Shown {c} {p} {q} {d} v g n s =
    let same = g v d.slot s.state (subst (λ m. c ≢ Call.release m) (sym s.seq) n) in
    record {
      state = ap (λ x. x.state) same ∙ s.state;
      seq = ap (λ x. x.seq) same ∙ s.seq;
      angle = ap (λ x. x.resolved_angle) same ∙ s.angle;
      mirror = ap (λ x. x.resolved_mirror) same ∙ s.mirror;
    }

-- A thread without an answer had none before.
pub answer_before :
    (i j : ℕ) (r : Reply) (ts : Order) → answer j ((i, r) ∷ ts) ≡ none → answer j ts ≡ none
answer_before i j r ts e = elim (Bool-cases (i == j)) [
  | inl here ↦ ground arith
  | inr other ↦ ground arith
]

module _ (k : Kernel) (calls : ℕ → Call) (p0 : Pool) (valid : IsValid p0) where
  -- The frame of an answer stays in its slot.
  Serial-Shows :
      {q : Pool} {ts : Order}
      → Serial k calls p0 ts q
      → (i : ℕ) (r : Reply) → answer i ts ≡ some r
      → Unreleased calls none ts r
      → Shows r q
  Serial-Shows origin i r e u d f = cc
  Serial-Shows (then_call {ts = ts} {p = p} {q = q} j r' s fresh does) i r e u d f =
      elim (Bool-cases (j == i)) [
        | inl here ↦
            let same : r' ≡ r = ground arith in
            subst (Shown d) does.pool
              (step-Shown k (calls j) p does.world d (Serial-IsValid k calls valid s)
                (does.reply ∙ same ∙ f)).1
        | inr other ↦
            let not_released : calls j ≢ Call.release d.seq =
              λ c. let none_yet = (u d f j c).0 in ground arith in
            Guarded-Shown (Serial-IsValid k calls valid s) (Does-Guarded does) not_released (
              Serial-Shows s i r (ground arith)
                (λ d' f' j' c. (answer_before j j' r' ts (u d' f' j' c).0, λ e. ground arith)) d f)
      ]

  -- And in the middle of another thread's critical section.
  pub Owns-Shows :
      (o : Option ℕ) (ts : Order) (q p : Pool) (th : ℕ → Thread k)
      → Serial k calls p0 ts q
      → Owns k calls p0 o ts q p th
      → (i : ℕ) (r : Reply) → answer i ts ≡ some r
      → Unreleased calls o ts r
      → Shows r p
  Owns-Shows none ts q p th s h i r e u d f = subst (Shown d) (sym h.0) (Serial-Shows s i r e u d f)
  Owns-Shows (some o) ts q p th s h i r e u d f =
      Guarded-Shown (Serial-IsValid k calls valid s) h.3 (λ c. (u d f o c).1 refl)
        (Serial-Shows s i r e (λ d' f' j c. ((u d' f' j c).0, λ e. ground arith)) d f)
