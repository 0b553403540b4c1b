-- ===== src/Threads/Implements/Consumer.antt =====
-- The consumer of src/vcam_pool.c: acquire, dequeue, release and peek as critical sections.
use vcam_kmod.Base.{
  ℕ, ◌≡◌, Bool, true, false, none, some, Option, inl, inr, refl, Option-cases, ◌∙◌, ap,
}
use vcam_kmod.Kernel.{Kernel, Result, ok, err, esrch, eagain}
use vcam_kmod.Logic.Range.{Decision, deliver, wrap, drop, range_decide}
use vcam_kmod.Pool.State.{Pool, slot_at}
use vcam_kmod.Pool.Consumer.{Taken, oldest, find_held, count_wrap}
use vcam_kmod.Pool.Consumer
use vcam_kmod.Pool.Change.Defs.{taker}
use vcam_kmod.Pool.Change.Consumer.{took}
use vcam_kmod.Pool.Refs.Calls.{count_wrap-slot}
use vcam_kmod.Pool.Step.{Call, Reply, step, peeked}
use vcam_kmod.Threads.Prog.{unlock, write}
use vcam_kmod.Threads.Calls.{
  Thread, take_got, take_hold, take_in_range, take_best, take, acquire, dequeue, dequeue_read,
  release, release_slot, peek,
}
use vcam_kmod.Threads.Implements.Leaves.{leaves, finishes, Does-Guarded}
use vcam_kmod.Threads.Discipline.{Does, After, Exactly, Inside, Before}

module _ (k : Kernel) where
  -- What `take` returns in one piece is what the call does.
  takes :
      (take_ref : Bool) {p q : Pool} {r : Result Taken} {v' : k.World} (v : k.World)
      → Consumer.take k take_ref p v ≡ (r, q, v')
      → Does k (taker take_ref) p (took take_ref q r) q
  unfolding step Consumer.acquire Consumer.dequeue
  takes true v e = record { world = v; reply = rw e refl; pool = rw e refl }
  takes false v e = record { world = v; reply = rw e refl; pool = rw e refl }

  -- `ret` is the code after `take`.
  abbrev Returns : Bool → (Result Taken → Thread k) → Type 0
  Returns take_ref ret =
      (q : Pool) (r : Result Taken)
      → After k (taker take_ref) (took take_ref q r) (ret r)
        × Exactly k (taker take_ref) (took take_ref q r) (ret r)

  ends :
      (take_ref : Bool) (ret : Result Taken → Thread k) {p q : Pool} {v' : k.World} (v : k.World)
      (r : Result Taken)
      → Returns take_ref ret
      → Consumer.take k take_ref p v ≡ (r, q, v')
      → Inside k (taker take_ref) p q (unlock (ret r))
  ends take_ref ret {q = q} v r h e = (took take_ref q r, takes take_ref v e, (h q r).0, (h q r).1)

  -- With a last write.
  ends_writing :
      (take_ref : Bool) (ret : Result Taken → Thread k) {p q : Pool} {v' : k.World} (q' : Pool)
      (v : k.World) (r : Result Taken)
      → Returns take_ref ret
      → Consumer.take k take_ref p v ≡ (r, q, v')
      → Inside k (taker take_ref) p q' (write q (unlock (ret r)))
  ends_writing take_ref ret q' v r h e =
      (Does-Guarded (takes take_ref v e), ends take_ref ret v r h e)

  take_got-Inside :
      (ret : Result Taken → Thread k) (p q : Pool) (i : ℕ) (v : k.World) (r : Result ℕ × k.World)
      → Returns true ret
      → Consumer.take k true p v ≡ Consumer.take_got k r q i
      → Inside k Call.acquire p q (take_got k r.0 q i ret)
  unfolding Consumer.take_got take_got take_hold
  take_got-Inside ret p q i v (ok b, v') h e = ends_writing true ret q v _ h e
  take_got-Inside ret p q i v (err x, v') h e = ends true ret v _ h e

  take_in_range-Inside :
      (take_ref : Bool) (ret : Result Taken → Thread k) (p q : Pool) (i : ℕ) (w : k.World)
      → Returns take_ref ret
      → ((v : k.World) → Consumer.take k take_ref p v ≡ Consumer.take_in_range k take_ref q i v)
      → Inside k (taker take_ref) p q (take_in_range k take_ref q i ret)
  unfolding Consumer.take_in_range take_in_range take_hold
  take_in_range-Inside true ret p q i w h e =
      λ v. take_got-Inside ret p q i v (k.dma_buf_get (slot_at q.slot i).fd v) h (e v)
  take_in_range-Inside false ret p q i w h e = ends_writing false ret q w _ h (e w)

  take_best-Inside :
      (take_ref : Bool) (ret : Result Taken → Thread k) (p : Pool) (o : Option ℕ) (w : k.World)
      → Returns take_ref ret
      → ((v : k.World) → Consumer.take k take_ref p v ≡ Consumer.take_best k o take_ref p v)
      → Inside k (taker take_ref) p p (take_best k o take_ref p ret)
  unfolding Consumer.take_best take_best
  take_best-Inside take_ref ret p none w h e = ends_writing take_ref ret p w _ h (e w)
  take_best-Inside take_ref ret p (some i) w h e = by_decision _ refl
    where
      counts :
          ((v : k.World)
            → Consumer.take_best k (some i) take_ref p v
              ≡ Consumer.take_in_range k take_ref (count_wrap p i) i v)
          → Inside k
              (taker take_ref)
              p
              p
              (write (count_wrap p i) (take_in_range k take_ref (count_wrap p i) i ret))
      counts r = (
        λ _ j _ _. ap (λ t. slot_at t j) (count_wrap-slot p i),
        take_in_range-Inside take_ref ret p (count_wrap p i) i w h (λ v. e v ∙ r v),
      )

      by_decision :
          (d : Decision)
          → range_decide p.range_end_ns p.loop (slot_at p.slot i).timestamp_ns ≡ d
          → Inside k (taker take_ref) p p (take_best k (some i) take_ref p ret)
      by_decision drop r =
          rw (r, take_best)
            (ends_writing take_ref ret {v' = w} p w _ h (e w ∙ rw (r, Consumer.take_best) refl))
      by_decision deliver r = rw (r, take_best) (counts (λ v. rw (r, Consumer.take_best) refl))
      by_decision wrap r = rw (r, take_best) (counts (λ v. rw (r, Consumer.take_best) refl))

  take-Before :
      (take_ref : Bool) (ret : Result Taken → Thread k) (w : k.World)
      → Returns take_ref ret
      → Before k (taker take_ref) (take k take_ref ret)
  unfolding take Consumer.take
  take-Before take_ref ret w h = λ p. take_best-Inside take_ref ret p (oldest p) w h (λ v. refl)

  pub acquire-Before : k.World → Before k Call.acquire (acquire k)
  unfolding acquire
  acquire-Before w = take-Before true _ w (λ q r. (refl, refl))

  dequeue_read-Returns : Returns false (dequeue_read k)
  unfolding dequeue_read
  dequeue_read-Returns q (ok t) =
      (λ p. refl, λ p h. let same = h _ refl in rw (same.angle, same.mirror) refl)
  dequeue_read-Returns q (err e) = (refl, refl)

  pub dequeue-Before : k.World → Before k Call.dequeue (dequeue k)
  unfolding dequeue
  dequeue-Before w = take-Before false _ w dequeue_read-Returns

  pub release-Before : k.World → (q : ℕ) → Before k (Call.release q) (release k q)
  unfolding step release release_slot Consumer.release
  release-Before w q p = elim (Option-cases (find_held p.nslots 0 p.slot q)) [
    | inl n ↦
        rw (n, Inside)
          (finishes w (Reply.done (err esrch)) (rw (n, Consumer.release) refl)
            (rw (n, Consumer.release) refl))
    | inr (i, n) ↦
        rw (n, Inside)
          (finishes w (Reply.done (ok tt)) (rw (n, Consumer.release) refl)
            (rw (n, Consumer.release) refl))
  ]

  pub peek-Before : k.World → Before k Call.peek (peek k)
  unfolding step peek Consumer.peek
  peek-Before w p = elim (Option-cases (oldest p)) [
    | inl n ↦ rw (n, Inside) (leaves w (peeked (err eagain)) (rw (n, Consumer.peek) refl) refl)
    | inr (i, n) ↦
        rw (n, Inside)
          (leaves w (peeked (ok ((slot_at p.slot i).dbuf, (slot_at p.slot i).seq)))
            (rw (n, Consumer.peek) refl) refl)
  ]
