-- ===== src/Pool/Stream/Consumer.antt =====
-- The consumer's calls of src/vcam_pool.c on the stream of frames.
use vcam_kmod.Base.{
  ℕ, ◌≡◌, ◌⊎◌, inl, inr, refl, ap, arith, Bool, true, false, Option, none, some, [], set,
  Option-cases, subst,
}
use mathlib.Core.List.{map}
use vcam_kmod.Uapi.{Dequeue}
use vcam_kmod.Kernel.{Kernel, Result, Errno, ok, err}
use vcam_kmod.Logic.Range.{Decision, deliver, wrap, drop, range_decide}
use vcam_kmod.Pool.State.{Pool, slot_at, idle, inc64, reject_unknown}
use vcam_kmod.Pool.Consumer.{
  Taken, take, take_best, take_in_range, take_got, acquire, dequeue, oldest, count_wrap, dropped,
  acquire_out, dequeue_out, release, find_held, peek,
}
use vcam_kmod.Pool.Step.{Call, Reply}
use vcam_kmod.Pool.Invariant.Defs.{IsValid}
use vcam_kmod.Pool.Invariant.Find.{Best, oldest-Best, find_held-some}
use vcam_kmod.Pool.Change.Defs.{Writes}
use vcam_kmod.Pool.Change.Consumer.{oldest-IsOldest}
use vcam_kmod.Pool.Delivery.{IsHandedOut, dequeue-ok, acquire-ok}
use vcam_kmod.Pool.Fifo.Pending.{waiting-none}
use vcam_kmod.Pool.Fifo.Order.{waiting-take}
use vcam_kmod.Pool.Stream.Defs.{Keeps, Hands, Loses, Returns, Moves, frame_of, queue_of, view}
use vcam_kmod.Pool.Stream.Writes.{Keeps-slots, hold-Hands, discard-Loses, give_back-Returns}

module _ (k : Kernel) (p : Pool) (w : k.World) where
  take-nslots : (take_ref : Bool) → (take k take_ref p w).1.nslots ≡ p.nslots
  unfolding take take_best take_in_range take_got
  take-nslots take_ref = ground arith

  dequeue-nslots : (dequeue k p w).1.nslots ≡ p.nslots
  unfolding dequeue
  dequeue-nslots = take-nslots false

  acquire-nslots : (acquire k p w).1.nslots ≡ p.nslots
  unfolding acquire
  acquire-nslots = take-nslots true

module _ (k : Kernel) (p : Pool) (v : IsValid p) (w : k.World) where
  -- Where the search finds none, no frame waits.
  none_waits : oldest p ≡ none → queue_of p.slot ≡ []
  none_waits e =
      let empty : Best p.slot p.nslots none = subst (Best p.slot p.nslots) e (oldest-Best p) in
      ap (map frame_of) (waiting-none p.slot (λ j. ground (arith, empty j, v.pool.spare j)))

  -- What an attempt that fails leaves.
  abbrev Failed : Bool → Pool → Type 0
  Failed true q = Keeps (view p) (view q) ⊎ Loses (view p) (view q)
  Failed false q = (Keeps (view p) (view q) × (queue_of p.slot ≡ [])) ⊎ Loses (view p) (view q)

  abbrev FailedIf : Bool → Result Taken × Pool × k.World → Type 0
  FailedIf take_ref (err e, q, w') = Failed take_ref q
  FailedIf take_ref (ok t, q, w') = Unit {0}

  lost-Failed : (take_ref : Bool) (q : Pool) → Loses (view p) (view q) → Failed take_ref q
  lost-Failed true q l = inr l
  lost-Failed false q l = inr l

  empty-Failed :
      (take_ref : Bool) (q : Pool) → q.slot ≡ p.slot → oldest p ≡ none → Failed take_ref q
  empty-Failed true q e n = inl (Keeps-slots p q e)
  empty-Failed false q e n = inl (Keeps-slots p q e, none_waits n)

  take_got-Failed :
      (o : Result ℕ × k.World) (i : ℕ) → FailedIf true (take_got k o (count_wrap p i) i)
  unfolding take_got
  take_got-Failed (ok b, w') i = tt
  take_got-Failed (err e, w') i = inl (Keeps-slots p (count_wrap p i) (ground arith))

  take_in_range-Failed :
      (take_ref : Bool) (i : ℕ) → FailedIf take_ref (take_in_range k take_ref (count_wrap p i) i w)
  unfolding take_in_range
  take_in_range-Failed true i =
      take_got-Failed (k.dma_buf_get (slot_at (count_wrap p i).slot i).fd w) i
  take_in_range-Failed false i = tt

  take_best-Failed :
      (o : Option ℕ) (take_ref : Bool)
      → oldest p ≡ o
      → FailedIf take_ref (take_best k o take_ref p w)
  unfolding take_best
  take_best-Failed none take_ref e = empty-Failed take_ref _ refl e
  take_best-Failed (some i) take_ref e = by_decision _ refl
    where
      by_decision :
          (d : Decision)
          → range_decide p.range_end_ns p.loop (slot_at p.slot i).timestamp_ns ≡ d
          → FailedIf take_ref (take_best k (some i) take_ref p w)
      by_decision drop r =
          let old = oldest-IsOldest p i e in
          rw (r, take_best)
            (lost-Failed take_ref (dropped p i) (
              discard-Loses p (dropped p i) v.pool old r
                (record { in_range = old.in_range; nslots = refl; slot = refl })))
      by_decision deliver r = rw (r, take_best) (take_in_range-Failed take_ref i)
      by_decision wrap r = rw (r, take_best) (take_in_range-Failed take_ref i)

  take-Failed : (take_ref : Bool) → FailedIf take_ref (take k take_ref p w)
  unfolding take
  take-Failed take_ref = take_best-Failed (oldest p) take_ref refl

  -- A frame handed out is the first of the queue.
  handed-Hands :
      (q : Pool) (i : ℕ)
      → IsHandedOut p q i
      → q.nslots ≡ p.nslots
      → Hands (frame_of (slot_at p.slot i)) (view p) (view q)
  handed-Hands q i h n =
      hold-Hands p q v.pool h.oldest h.in_range
        (record { in_range = h.oldest.in_range; nslots = n; slot = h.slot })

  dequeue_out-Failed :
      (o : Result Taken × Pool × k.World) {x : Errno}
      → FailedIf false o
      → dequeue_out o.1 o.0 ≡ err x
      → Failed false o.1
  dequeue_out-Failed (err e, q, w') f h = f
  dequeue_out-Failed (ok t, q, w') f h = absurd (cc)

  acquire_out-Failed :
      (o : Result Taken × Pool × k.World) {x : Errno}
      → FailedIf true o
      → acquire_out o.0 ≡ err x
      → Failed true o.1
  acquire_out-Failed (err e, q, w') f h = f
  acquire_out-Failed (ok t, q, w') f h = absurd (cc)

  dequeue-Failed : {x : Errno} → (dequeue k p w).0 ≡ err x → Failed false (dequeue k p w).1
  unfolding dequeue
  dequeue-Failed e = dequeue_out-Failed (take k false p w) (take-Failed false) e

  acquire-Failed : {x : Errno} → (acquire k p w).0 ≡ err x → Failed true (acquire k p w).1
  unfolding acquire
  acquire-Failed e = acquire_out-Failed (take k true p w) (take-Failed true) e

  pub dequeue-Moves :
      let (r, q, _) = dequeue k p w in Moves Call.dequeue (Reply.frame r) (view p) (view q)
  dequeue-Moves = by_answer (dequeue k p w).0 refl
    where
      by_answer :
          (r : Result Dequeue)
          → (dequeue k p w).0 ≡ r
          → Moves Call.dequeue (Reply.frame r) (view p) (view (dequeue k p w).1)
      by_answer (ok d) e =
          let (h, number, angle, mirror, _) = dequeue-ok k p w v.pool e in
          (
            frame_of (slot_at p.slot d.slot),
            handed-Hands (dequeue k p w).1 d.slot h (dequeue-nslots k p w),
            number,
            angle,
            mirror,
          )
      by_answer (err x) e = dequeue-Failed e

  pub acquire-Moves :
      let (r, q, _) = acquire k p w in Moves Call.acquire (Reply.buffer r) (view p) (view q)
  acquire-Moves = by_answer (acquire k p w).0 refl
    where
      by_answer :
          (r : Result (ℕ × Option ℕ))
          → (acquire k p w).0 ≡ r
          → Moves Call.acquire (Reply.buffer r) (view p) (view (acquire k p w).1)
      by_answer (ok (n, ref)) e =
          let (i, h, number, _) = acquire-ok k p w e in
          (
            frame_of (slot_at p.slot i),
            handed-Hands (acquire k p w).1 i h (acquire-nslots k p w),
            number,
          )
      by_answer (err x) e = acquire-Failed e

  pub release-Moves :
      (n : ℕ) → let (r, q) = release p n in Moves (Call.release n) (Reply.done r) (view p) (view q)
  unfolding release
  release-Moves n = elim (Option-cases (find_held p.nslots 0 p.slot n)) [
    | inl e ↦ rw (release, e) (Keeps-slots p (reject_unknown p) refl)
    | inr (i, e) ↦
        rw (release, e)
          (let (_, below, there, numbered) = find_held-some p.nslots 0 p.slot n i e in
            let q = record p {
              slot = set p.slot i (record (slot_at p.slot i) { state = idle });
              active_seq = 0;
              stats = record (p.stats) { released = inc64 p.stats.released };
            } in
            subst (λ m. Returns m (view p) (view q)) numbered
              (give_back-Returns p q v.pool (ground (arith, there))
                (record { in_range = omega (arith, below); nslots = refl; slot = refl })))
  ]

  pub peek-Moves : Moves Call.peek (Reply.peeked (peek p)) (view p) (view p)
  unfolding peek
  peek-Moves = elim (Option-cases (oldest p)) [
    | inl e ↦ rw (peek, e) (Keeps-slots p p refl, none_waits e)
    | inr (i, e) ↦
        rw (peek, e)
          (let old = oldest-IsOldest p i e in
            let q : Pool = record p {
              slot = set p.slot i (record (slot_at p.slot i) { state = idle });
            } in
            let written : Writes p q i (record (slot_at p.slot i) { state = idle }) = record {
              in_range = old.in_range;
              nslots = refl;
              slot = refl;
            } in
            (
              Keeps-slots p p refl,
              (
                frame_of (slot_at p.slot i),
                queue_of q.slot,
                ap (map frame_of) (waiting-take v.pool old written refl),
                refl,
                refl,
              ),
            ))
  ]
