-- ===== src/Pool/Change/Keeps.antt =====
-- The slot part of the invariant under a change.
use vcam_kmod.Base.{ℕ, ◌≡◌, arith, List}
use vcam_kmod.Logic.Pose.Laws.{pose_apply_bounds}
use vcam_kmod.Pool.State.{Pool, Slot, slot_at}
use vcam_kmod.Pool.Step.{Call, Reply}
use vcam_kmod.Pool.Producer.{submitted, registered, unregistered}
use vcam_kmod.Pool.Invariant.Defs.{IsSlots}
use vcam_kmod.Pool.Invariant.Write.{write-IsSlots}
use vcam_kmod.Pool.Change.Defs.{Change, keep, bind, unbind, fill, discard, hand_out, give_back}

-- The slot part, of a whole pool.
abbrev pub PoolSlots : Pool → Type 0
PoolSlots p = IsSlots p.slot p.nslots p.last_submitted_seq p.last_dequeued_seq

PoolSlots-eq :
    (p q : Pool) (slots : List Slot) {ls ld : ℕ}
    → q.slot ≡ slots
    → q.nslots ≡ p.nslots
    → q.last_submitted_seq ≡ ls
    → q.last_dequeued_seq ≡ ld
    → IsSlots slots p.nslots ls ld
    → PoolSlots q
PoolSlots-eq p q slots e n s d v = rw (e, n, s, d) v

module _ {p q : Pool} (v : PoolSlots p) where
  open v use {size, count, each, spare, unique, order}

  pub Change-PoolSlots : {c : Call} {r : Reply} → Change c r p q → PoolSlots q
  Change-PoolSlots (keep e s _) = PoolSlots-eq p q p.slot e s.nslots s.submitted s.dequeued v
  Change-PoolSlots (bind i b fd fmt c e good w s _) =
      PoolSlots-eq p q _ w.slot s.nslots s.submitted s.dequeued (
        write-IsSlots v i w.in_range (registered (slot_at p.slot i) b fd fmt) order
          (ground (arith, each i)) (λ j ne. each j) (λ j ne. ground arith))
  Change-PoolSlots (unbind i c e w s _) =
      PoolSlots-eq p q _ w.slot s.nslots s.submitted s.dequeued (
        write-IsSlots v i w.in_range (unregistered (slot_at p.slot i)) order
          (ground (arith, each i)) (λ j ne. each j) (λ j ne. ground arith))
  Change-PoolSlots (fill i seq t rot flags c e new w s d _) =
      PoolSlots-eq p q _ w.slot w.nslots s d (
        write-IsSlots v i w.in_range (submitted p (slot_at p.slot i) seq t rot flags) (omega arith)
          (ground (arith, each i, pose_apply_bounds p.pose)) (λ j ne. ground (arith, each j))
          (λ j ne. ground (arith, each j)))
  Change-PoolSlots (discard i r c old late w s _) =
      PoolSlots-eq p q _ w.slot s.nslots s.submitted s.dequeued (
        write-IsSlots v i w.in_range _ order (ground (arith, each i)) (λ j ne. each j)
          (λ j ne. ground arith))
  Change-PoolSlots (hand_out i r c old w s d _) = PoolSlots-eq p q _ w.slot w.nslots s d (
      write-IsSlots v i w.in_range _ (ground (arith, each i, old.is_full))
        (ground (arith, each i, old.is_full))
        (λ j ne. ground (arith, each j, each i, old.is_full, spare j, old.least j, unique i j))
        (λ j ne. ground (arith, old.is_full, unique i j)))
  Change-PoolSlots (give_back i c e w s _) =
      PoolSlots-eq p q _ w.slot s.nslots s.submitted s.dequeued (
        write-IsSlots v i w.in_range _ order (ground (arith, each i)) (λ j ne. each j)
          (λ j ne. ground arith))
