-- ===== src/Pool/Change/Consumer.antt =====
-- The changes of the consumer's calls of src/vcam_pool.c.
use vcam_kmod.Base.{
  ℕ, ◌≡◌, true, false, Bool, none, some, Option, [], ◌∷◌, arith, inl, inr, refl, ap, sym, subst,
  Option-cases,
}
use vcam_kmod.Kernel.{Kernel, Result, Errno, ok, err, eagain}
use vcam_kmod.Logic.Range.{Decision, deliver, wrap, drop, range_decide}
use vcam_kmod.Pool.State.{Pool, slot_at}
use vcam_kmod.Pool.Consumer.{
  take, take_best, take_in_range, take_got, acquire, dequeue, release, find_held, oldest,
  count_wrap, hold, Taken, acquire_out, dequeue_out,
}
use vcam_kmod.Pool.Step.{Call, Reply, done, buffer, frame}
use vcam_kmod.Pool.Invariant.Find.{Best, oldest-Best, find_held-some}
use vcam_kmod.Pool.Change.Defs.{IsOldest, Trace, Change, taker, keep, discard, hand_out, give_back}

module _ (p : Pool) where
  -- The slot that the search returns.
  pub oldest-IsOldest : (i : ℕ) → oldest p ≡ some i → IsOldest p i
  oldest-IsOldest i e =
      let best : Best p.slot p.nslots (some i) = subst (Best p.slot p.nslots) e (oldest-Best p) in
      record {
        in_range = best.0;
        is_full = ground (arith, best.1);
        least = λ j h f. best.2 j h (ground arith);
      }

  pub release-Change : (q : ℕ) → Change (Call.release q) (done (release p q).0) p (release p q).1
  unfolding release
  release-Change q = elim (Option-cases (find_held p.nslots 0 p.slot q)) [
    | inl e ↦ rw (e, release) (keep refl (ground arith) (refl, refl))
    | inr (i, e) ↦
        let (_, h, s, numbered) = find_held-some p.nslots 0 p.slot q i e in
        rw (e, release)
          (give_back i (ap Call.release (sym numbered)) (ground arith) (ground arith) (ground arith)
            (refl, refl))
  ]

-- The reply of the call that takes a frame.
abbrev pub took : Bool → Pool → Result Taken → Reply
took true p r = buffer (acquire_out r)
took false p r = frame (dequeue_out p r)

-- A failed attempt delivers nothing.
took-err :
    (take_ref : Bool) (p : Pool) (e : Errno)
    → Trace (taker take_ref) (took take_ref p (err e)) [] []
took-err true p e = (refl, refl)
took-err false p e = (refl, refl)

module _ (k : Kernel) (p : Pool) (w : k.World) where
  -- Counting a wrap leaves the slots alone.
  hold-Change :
      (take_ref : Bool) (i : ℕ) {r : Reply}
      → IsOldest p i
      → Trace (taker take_ref) r [] ((slot_at (count_wrap p i).slot i).seq ∷ [])
      → Change (taker take_ref) r p (hold (count_wrap p i) i)
  hold-Change take_ref i h trace =
      hand_out i take_ref refl h (ground (arith, h.in_range)) (ground arith) (ground arith)
        (ground (arith, trace.0, trace.1))

  count_wrap-Change :
      {c : Call} {r : Reply} (i : ℕ) → Trace c r [] [] → Change c r p (count_wrap p i)
  count_wrap-Change i trace = keep (ground arith) (ground arith) trace

  take_in_range-Change :
      (take_ref : Bool) (i : ℕ)
      → IsOldest p i
      → Change
          (taker take_ref)
          (took take_ref
            (take_in_range k take_ref (count_wrap p i) i w).1
            (take_in_range k take_ref (count_wrap p i) i w).0)
          p
          (take_in_range k take_ref (count_wrap p i) i w).1
  unfolding take_in_range
  take_in_range-Change false i h = hold-Change false i h (refl, refl)
  take_in_range-Change true i h = got (k.dma_buf_get (slot_at (count_wrap p i).slot i).fd w)
    where
      got :
          (r : Result ℕ × k.World)
          → Change Call.acquire
              (took true (take_got k r (count_wrap p i) i).1 (take_got k r (count_wrap p i) i).0)
              p
              (take_got k r (count_wrap p i) i).1
      got (ok b, w') = hold-Change true i h (refl, refl)
      got (err e, w') = count_wrap-Change i (refl, refl)

  take_best-Change :
      (o : Option ℕ) (take_ref : Bool)
      → oldest p ≡ o
      → Change
          (taker take_ref)
          (took take_ref (take_best k o take_ref p w).1 (take_best k o take_ref p w).0)
          p
          (take_best k o take_ref p w).1
  unfolding take_best
  take_best-Change none take_ref e = keep refl (ground arith) (took-err take_ref _ eagain)
  take_best-Change (some i) take_ref e = by_decision _ refl
    where
      h : IsOldest p i
      h = oldest-IsOldest p i e

      by_decision :
          (d : Decision)
          → range_decide p.range_end_ns p.loop (slot_at p.slot i).timestamp_ns ≡ d
          → Change
              (taker take_ref)
              (took take_ref
                (take_best k (some i) take_ref p w).1
                (take_best k (some i) take_ref p w).0)
              p
              (take_best k (some i) take_ref p w).1
      by_decision drop r =
          rw (r, take_best)
            (discard i take_ref refl h r (ground (arith, h.in_range)) (ground arith)
              (took-err take_ref _ eagain))
      by_decision deliver r = rw (r, take_best) (take_in_range-Change take_ref i h)
      by_decision wrap r = rw (r, take_best) (take_in_range-Change take_ref i h)

  pub take-Change :
      (take_ref : Bool)
      → Change
          (taker take_ref)
          (took take_ref (take k take_ref p w).1 (take k take_ref p w).0)
          p
          (take k take_ref p w).1
  unfolding take
  take-Change take_ref = take_best-Change (oldest p) take_ref refl

  pub acquire-Change : Change Call.acquire (buffer (acquire k p w).0) p (acquire k p w).1
  unfolding acquire
  acquire-Change = take-Change true

  pub dequeue-Change : Change Call.dequeue (frame (dequeue k p w).0) p (dequeue k p w).1
  unfolding dequeue
  dequeue-Change = take-Change false
