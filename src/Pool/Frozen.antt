-- ===== src/Pool/Frozen.antt =====
-- The pose of a frame, from `vcam_pool_submit` to `vcam_pool_dequeue` of src/vcam_pool.c.
use vcam_kmod.Base.{ℕ, ◌≤◌, ◌≡◌, refl, sym, ◌∙◌, arith, true, List, [], ◌∷◌, subst, ℕ_discrete}
use vcam_kmod.Base.Int.{ℤ}
use vcam_kmod.Kernel.{Kernel, ok}
use vcam_kmod.Uapi.{Dequeue}
use vcam_kmod.Logic.Pose.{pose_apply}
use vcam_kmod.Pool.State.{Pool, Slot, slot_at}
use vcam_kmod.Pool.Producer.{submit, submitted}
use vcam_kmod.Pool.Consumer.{dequeue}
use vcam_kmod.Pool.Step.{Call, Reply, step, run}
use vcam_kmod.Pool.Answers.{submit-ok}
use vcam_kmod.Pool.Invariant.Write.{slot_at-set}
use vcam_kmod.Pool.Invariant.Defs.{IsValid, is_live}
use vcam_kmod.Pool.Safety.{step-IsValid, run-IsValid}
use vcam_kmod.Pool.Delivery.{dequeue-ok}
use vcam_kmod.Pool.Change.Defs.{
  Change, Writes, keep, bind, unbind, fill, discard, hand_out, give_back,
}
use vcam_kmod.Pool.Change.Keeps.{PoolSlots}
use vcam_kmod.Pool.Change.Reads.{Writes-here, Writes-other}
use vcam_kmod.Pool.Change.Step.{step-Change}

-- A slot with frame `n`, if it has it, has the pose `angle` and `mirror` for it.
abbrev pub Poses : (n angle mirror : ℕ) → Slot → Type 0
Poses n angle mirror s =
    is_live s.state ≡ true → s.seq ≡ n → (s.resolved_angle ≡ angle) × (s.resolved_mirror ≡ mirror)

-- Frame `n` has been submitted, and has that pose wherever it is.
pub record Frozen (n angle mirror : ℕ) (p : Pool) : Type 0 where
  pub known : n ≤ p.last_submitted_seq
  pub each : (j : ℕ) → Poses n angle mirror (slot_at p.slot j)

module _ {p q : Pool} (v : PoolSlots p) {n angle mirror : ℕ} (f : Frozen n angle mirror p) where
  Frozen-Writes :
      {i : ℕ} {s : Slot}
      → Writes p q i s
      → n ≤ q.last_submitted_seq
      → Poses n angle mirror s
      → Frozen n angle mirror q
  Frozen-Writes {i} {s} w known here = record {
    known = known;
    each = λ j. elim (ℕ_discrete i j) [
      | yes same ↦
          subst (λ t. Poses n angle mirror (slot_at q.slot t)) same
            (subst (Poses n angle mirror) (sym (Writes-here v w)) here)
      | no other ↦ subst (Poses n angle mirror) (sym (Writes-other v w j other)) (f.each j)
    ];
  }

  Change-Frozen : {c : Call} {r : Reply} → Change c r p q → Frozen n angle mirror q
  Change-Frozen (keep e s _) = record {
    known = omega (arith, s.submitted, f.known);
    each = λ j. subst (λ t. Poses n angle mirror (slot_at t j)) (sym e) (f.each j);
  }
  Change-Frozen (bind i b fd fmt c e good w s _) =
      Frozen-Writes w (omega (arith, s.submitted, f.known)) (λ live _. cc)
  Change-Frozen (unbind i c e w s _) =
      Frozen-Writes w (omega (arith, s.submitted, f.known)) (λ live _. cc)
  Change-Frozen (fill i m t rot flags c e new w s d _) =
      Frozen-Writes w (omega (arith, s, new, f.known))
        (λ live same. absurd (omega (arith, same, new, f.known)))
  Change-Frozen (discard i b c old late w s _) =
      Frozen-Writes w (omega (arith, s.submitted, f.known)) (λ live _. cc)
  Change-Frozen (hand_out i b c old w s d _) =
      Frozen-Writes w (omega (arith, s, f.known)) (λ _ same. f.each i (rw old.is_full refl) same)
  Change-Frozen (give_back i c e w s _) =
      Frozen-Writes w (omega (arith, s.submitted, f.known)) (λ live _. cc)

module _ (k : Kernel) {n angle mirror : ℕ} where
  run-Frozen :
      (cs : List (Call × k.World)) {p : Pool}
      → IsValid p
      → Frozen n angle mirror p
      → Frozen n angle mirror (run k cs p).1
  unfolding run
  run-Frozen [] v f = f
  run-Frozen ((c, w) ∷ cs) {p} v f =
      run-Frozen cs (step-IsValid k c w v) (Change-Frozen v.pool f (step-Change k c p w))

-- A submission that is accepted freezes the pose of the pool.
submit-Frozen :
    (p : Pool) (i n : ℕ) (t : ℤ) (rot flags : ℕ)
    → IsValid p
    → (submit p i n t rot flags).0 ≡ ok tt
    → Frozen n (pose_apply p.pose).angle_deg (pose_apply p.pose).mirror (submit p i n t rot flags).1
submit-Frozen p i n t rot flags v e =
    let (s, wrote, last) = submit-ok p i n t rot flags e in
    record {
      known = omega (arith, last);
      each = λ j. ground (
        arith,
        wrote,
        slot_at-set v.pool i s.in_range (submitted p (slot_at p.slot i) n t rot flags) j,
        v.pool.each j,
        s.is_new,
        v.pool.order,
        v.pool.each j,
      );
    }

module _ (k : Kernel) where
  submit-IsValid :
      (p : Pool) (i n : ℕ) (t : ℤ) (rot flags : ℕ) (w : k.World)
      → IsValid p
      → IsValid (submit p i n t rot flags).1
  unfolding step
  submit-IsValid p i n t rot flags w v = step-IsValid k (Call.submit i n t rot flags) w v

  -- The pose of a frame is the pool's pose at the moment of its submission: after an accepted
  -- submission in a valid pool and any calls, a dequeue that delivers the frame reports the angle
  -- and the mirroring that the pool's pose resolved to then.
  pub dequeue-Frozen :
      (p : Pool) (i n : ℕ) (t : ℤ) (rot flags : ℕ) (cs : List (Call × k.World)) (w : k.World)
      {d : Dequeue}
      → IsValid p
      → (submit p i n t rot flags).0 ≡ ok tt
      → let q = (run k cs (submit p i n t rot flags).1).1 in
        (dequeue k q w).0 ≡ ok d
        → d.seq ≡ n
        → (d.resolved_angle_deg ≡ (pose_apply p.pose).angle_deg)
          × (d.resolved_mirror ≡ (pose_apply p.pose).mirror)
  dequeue-Frozen p i n t rot flags cs w {d} v e got same =
      let p1 = (submit p i n t rot flags).1 in
      let v1 : IsValid p1 = submit-IsValid p i n t rot flags w v in
      let f = run-Frozen k cs v1 (submit-Frozen p i n t rot flags v e) in
      let (h, number, angle, mirror, _) =
        dequeue-ok k (run k cs p1).1 w (run-IsValid k cs v1).pool got in
      let (a, m) = f.each d.slot (rw h.oldest.is_full refl) (sym number ∙ same) in
      (angle ∙ a, mirror ∙ m)
