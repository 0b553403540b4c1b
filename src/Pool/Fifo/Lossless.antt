-- ===== src/Pool/Fifo/Lossless.antt =====
-- The queue of frames of src/vcam_pool.c, where no call lets a frame be dropped.
use mathlib.Core.List.{append-nil}
use vcam_kmod.Base.{
  ℕ, ◌≤◌, ◌<◌, ◌≡◌, ◌⊎◌, ◌∙◌, inl, inr, refl, sym, ap, arith, Bool, true, false, List, [], ◌∷◌,
  ◌++◌, not, ◌==◌, ltb, ◌||◌,
}
use vcam_kmod.Base.Int.{eqb_ℤ}
use vcam_kmod.Kernel.{Kernel}
use vcam_kmod.Logic.Range.{to_end}
use vcam_kmod.Pool.State.{Pool, slot_at, init, max_slots}
use vcam_kmod.Pool.Producer
use vcam_kmod.Pool.Consumer
use vcam_kmod.Pool.Control
use vcam_kmod.Pool.Delivery.{range_decide-kept}
use vcam_kmod.Pool.Step.{Call, step, run, accepted, delivered}
use vcam_kmod.Pool.Invariant.Defs.{IsValid}
use vcam_kmod.Pool.Safety.{init-IsValid, step-IsValid}
use vcam_kmod.Pool.Fifo.Pending.{pending}
use vcam_kmod.Pool.Fifo.Order.{IsLate, step-Passes, all_accepted, all_delivered, splice}

-- The call is no `set_range` with an end and with looping off.
abbrev pub is_lossless : Call → Bool
is_lossless (Call.set_range r) = eqb_ℤ r.end_ns to_end || not (r.loop == 0)
is_lossless _ = true

-- No frame is dropped.
abbrev NoDrop : Pool → Type 0
NoDrop p = (p.range_end_ns ≡ to_end) ⊎ (0 < p.loop)

module _ (k : Kernel) where
  abbrev pub Lossless : List (Call × k.World) → Type 0
  Lossless [] = Unit {0}
  Lossless ((c, _) ∷ cs) = (is_lossless c ≡ true) × Lossless cs

  step-NoDrop :
      (p : Pool) (w : k.World) (c : Call)
      → is_lossless c ≡ true
      → NoDrop p
      → NoDrop (step k c p w).1
  unfolding step Producer.register Producer.unregister Producer.submit Consumer.take
      Consumer.acquire Consumer.dequeue Consumer.release Control.poll Control.set_range
      Control.set_pose Control.set_backend Control.attach
  step-NoDrop p w (Call.set_range r) h e = ground arith
  step-NoDrop p w c h e = ground arith

  none_late : (p : Pool) (lost : List ℕ) → NoDrop p → IsLate p lost → ⊥
  none_late p lost e l = ground (
    arith,
    l.late,
    range_decide-kept p.range_end_ns p.loop (slot_at p.slot l.slot).timestamp_ns e,
  )

  step-queue :
      (p : Pool) (v : IsValid p) (w : k.World) (c : Call)
      → NoDrop p
      → let (r, q, _) = step k c p w in
        pending p.slot ++ accepted c r ≡ delivered c r ++ pending q.slot
  step-queue p v w c e =
      let one = step-Passes k p v c w in
      elim one.cause [
        | inl nothing ↦
            one.balance
            ∙ ap (λ l. (l ++ delivered c (step k c p w).0) ++ pending (step k c p w).1.slot) nothing
        | inr l ↦ absurd (none_late p one.lost e l)
      ]

  run-queue :
      (cs : List (Call × k.World)) (p : Pool)
      → IsValid p
      → NoDrop p
      → Lossless cs
      → let (tr, q) = run k cs p in
        pending p.slot ++ all_accepted tr ≡ all_delivered tr ++ pending q.slot
  unfolding run
  run-queue [] p v e l = append-nil (pending p.slot)
  run-queue ((c, w) ∷ cs) p v e (l, ls) =
      let (r, q, _) = step k c p w in
      splice (pending p.slot) (accepted c (step k c p w).0) _ (delivered c (step k c p w).0) _ _ _
        (step-queue p v w c e)
        (run-queue cs (step k c p w).1 (step-IsValid k c w v) (step-NoDrop p w c l e) ls)

  init-waits :
      (p : Pool) (n : ℕ)
      → 0 < n
      → n ≤ max_slots
      → (pending (init p n).1.slot ≡ []) × NoDrop (init p n).1
  unfolding init pending
  init-waits p n lo hi =
      let accepted : (n == 0 || ltb max_slots n) ≡ false = ground arith in
      rw accepted (refl, inr (omega arith))

  -- The pool is a lossless first-in first-out queue: from a pool that `vcam_pool_init` has set up
  -- with 1 to 8 slots, through any calls of which none is a `set_range` with an end and with
  -- looping off, the frames accepted so far are the frames delivered so far, followed by those that
  -- wait, all in order.
  pub init-queue :
      (cs : List (Call × k.World)) (p : Pool) (n : ℕ)
      → 0 < n
      → n ≤ max_slots
      → Lossless cs
      → let (tr, q) = run k cs (init p n).1 in all_accepted tr ≡ all_delivered tr ++ pending q.slot
  init-queue cs p n lo hi l =
      let (none_yet, open_end) = init-waits p n lo hi in
      ap (λ t. t ++ all_accepted (run k cs (init p n).1).0) (sym none_yet)
      ∙ run-queue cs (init p n).1 (init-IsValid p n lo hi).1 open_end l
