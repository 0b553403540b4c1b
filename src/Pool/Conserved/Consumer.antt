-- ===== src/Pool/Conserved/Consumer.antt =====
-- The counters through the consumer's calls of src/vcam_pool.c.
use vcam_kmod.Base.{
  ℕ, ◌≡◌, refl, arith, true, false, Bool, none, some, Option, inl, inr, Option-cases,
}
use vcam_kmod.Kernel.{Kernel, Result, ok, err}
use vcam_kmod.Logic.Range.{Decision, deliver, wrap, drop, range_decide}
use vcam_kmod.Pool.State.{Pool, slot_at, idle, held}
use vcam_kmod.Pool.Invariant.Find.{find_held-some}
use vcam_kmod.Pool.Consumer.{
  take_best, take_in_range, take_got, oldest, count_wrap, hold, dropped, find_held, release,
}
use vcam_kmod.Pool.Change.Keeps.{PoolSlots}
use vcam_kmod.Pool.Change.Defs.{IsOldest}
use vcam_kmod.Pool.Change.Consumer.{oldest-IsOldest}
use vcam_kmod.Pool.Conserved.Defs.{IsConserved, counts}

module _ (p : Pool) (v : PoolSlots p) (b : IsConserved p) where
  -- A slot that leaves the queue is dropped, or held.
  dropped-IsConserved : (i : ℕ) → IsOldest p i → IsConserved (dropped p i)
  dropped-IsConserved i o =
      let (f, h) = counts p v i (record (slot_at p.slot i) { state = idle; seq = 0 }) o.in_range in
      ground (arith, f, h, o.is_full, b.came, b.taken, b.bound, b.wraps)

  hold-IsConserved : (i : ℕ) → IsOldest p i → IsConserved (hold (count_wrap p i) i)
  hold-IsConserved i o =
      let (f, h) = counts p v i (record (slot_at p.slot i) { state = held }) o.in_range in
      ground (arith, f, h, o.is_full, b.came, b.taken, b.bound, b.wraps)

  count_wrap-IsConserved : (i : ℕ) → IsConserved (count_wrap p i)
  count_wrap-IsConserved i = ground (arith, b.came, b.taken, b.bound, b.wraps)

  pub release-IsConserved : (q : ℕ) → IsConserved (release p q).1
  unfolding release
  release-IsConserved q = elim (Option-cases (find_held p.nslots 0 p.slot q)) [
    | inl e ↦ rw (e, release) (ground (arith, b.came, b.taken, b.bound, b.wraps))
    | inr (i, e) ↦
        let (_, low, state, _) = find_held-some p.nslots 0 p.slot q i e in
        let (f, h) = counts p v i (record (slot_at p.slot i) { state = idle }) (ground arith) in
        rw (e, release) (ground (arith, f, h, state, b.came, b.taken, b.bound, b.wraps))
  ]

  module _ (k : Kernel) (w : k.World) where
    take_got-IsConserved :
        (r : Result ℕ × k.World) (i : ℕ)
        → IsOldest p i
        → IsConserved (take_got k r (count_wrap p i) i).1
    unfolding take_got
    take_got-IsConserved (ok b', w') i o = hold-IsConserved i o
    take_got-IsConserved (err e, w') i o = count_wrap-IsConserved i

    take_in_range-IsConserved :
        (take_ref : Bool) (i : ℕ)
        → IsOldest p i
        → IsConserved (take_in_range k take_ref (count_wrap p i) i w).1
    unfolding take_in_range
    take_in_range-IsConserved true i o = take_got-IsConserved _ i o
    take_in_range-IsConserved false i o = hold-IsConserved i o

    pub take_best-IsConserved :
        (o : Option ℕ) (take_ref : Bool) → oldest p ≡ o → IsConserved (take_best k o take_ref p w).1
    unfolding take_best
    take_best-IsConserved none take_ref e = ground (arith, b.came, b.taken, b.bound, b.wraps)
    take_best-IsConserved (some i) take_ref e = by_decision _ refl
      where
        by_decision :
            (d : Decision)
            → range_decide p.range_end_ns p.loop (slot_at p.slot i).timestamp_ns ≡ d
            → IsConserved (take_best k (some i) take_ref p w).1
        by_decision drop r = rw (r, take_best) (dropped-IsConserved i (oldest-IsOldest p i e))
        by_decision deliver r =
            rw (r, take_best) (take_in_range-IsConserved take_ref i (oldest-IsOldest p i e))
        by_decision wrap r =
            rw (r, take_best) (take_in_range-IsConserved take_ref i (oldest-IsOldest p i e))
