-- ===== src/Threads/Refs/Consumer.antt =====
-- The references that the consumer's calls of src/vcam_pool.c hold on their way.
use vcam_kmod.Base.{
  ℕ, ◌+◌, ◌≡◌, refl, arith, Bool, true, false, Option, none, some, inl, inr, Option-cases, ap,
}
use vcam_kmod.Kernel.{Kernel, CountsRefs, Result, ok, err, esrch, eagain}
use vcam_kmod.Logic.Range.{deliver, wrap, drop, range_decide}
use vcam_kmod.Pool.State.{Pool, Slot, held, idle, slot_at, reject_unknown, inc64}
use vcam_kmod.Pool.Consumer.{Taken, oldest, find_held, count_wrap, dropped, acquire_out}
use vcam_kmod.Pool.Step.{Reply, buffer}
use vcam_kmod.Pool.Refs.Held.{slot_refs, held_refs, held_refs-set_same}
use vcam_kmod.Pool.Refs.Calls.{count_wrap-slot}
use vcam_kmod.Threads.Prog.{done, unlock, write}
use vcam_kmod.Threads.Calls.{
  Thread, take_got, take_hold, take_in_range, take_best, take, acquire, dequeue, dequeue_read,
  release, release_slot, peek,
}
use vcam_kmod.Threads.Refs.Defs.{
  Holding, nothing_held, pool_refs, Fits, Moves, Settles, Locked, Carries,
}
use vcam_kmod.Threads.Refs.Producer.{leaves}

-- The reference that comes with the answer of `take`.
abbrev taken_ref : Result Taken → Holding
taken_ref (ok t) b = slot_refs b t.ref
taken_ref (err e) b = 0

-- The slot that goes to the consumer.
abbrev held_slot : Pool → ℕ → Slot
held_slot p i = record (slot_at p.slot i) { state = held }

module _ (k : Kernel) {limit : ℕ} (laws : CountsRefs k limit) where
  -- `ret`, the code after `take`, hands the reference out, if one has been asked for.
  abbrev Gives : Bool → (Result Taken → Thread k) → Type 0
  Gives true ret = (r : Result Taken) → Settles k limit (taken_ref r) (ret r)
  Gives false ret = (r : Result Taken) → Settles k limit nothing_held (ret r)

  -- `take` ends without a reference.
  empty_handed :
      (take_ref : Bool) (ret : Result Taken → Thread k) (m : Holding) (q : Pool)
      → Gives take_ref ret
      → ((b : ℕ) → m b ≡ pool_refs q b)
      → Locked k limit m q (unlock (ret (err eagain)))
  empty_handed true ret m q g e = (nothing_held, λ b. omega (arith, e b), g (err eagain))
  empty_handed false ret m q g e = (nothing_held, λ b. omega (arith, e b), g (err eagain))

  take_got-Moves :
      (r : Result ℕ × k.World) (w : k.World) (p : Pool) (i : ℕ) (ret : Result Taken → Thread k)
      (m : Holding)
      → Gives true ret
      → Fits k limit m w
      → ((b : ℕ) → m b ≡ pool_refs p b)
      → k.dma_buf_get (slot_at p.slot i).fd w ≡ r
      → (m' : Holding) × Moves k limit w r.1 m m' × Locked k limit m' p (take_got k r.0 p i ret)
  unfolding take_got take_hold
  take_got-Moves (err e, w') w p i ret m g f same got = (
    m,
    λ b. omega (arith, laws.get_err (slot_at p.slot i).fd w b got),
    (nothing_held, λ b. omega (arith, same b), g (err e)),
  )
  take_got-Moves (ok c, w') w p i ret m g f same got = (
    λ b. m b + slot_refs b (some c),
    λ b. omega (arith, laws.get_ok (slot_at p.slot i).fd w b got (f.room c)),
    (
      taken_ref (ok (record { seq = (slot_at p.slot i).seq; slot = i; ref = some c })),
      λ b. omega (arith, same b, held_refs-set_same b p.slot i (held_slot p i) refl),
      g (ok (record { seq = (slot_at p.slot i).seq; slot = i; ref = some c })),
    ),
  )

  take_in_range-Locked :
      (take_ref : Bool) (p : Pool) (i : ℕ) (ret : Result Taken → Thread k) (m : Holding)
      → Gives take_ref ret
      → ((b : ℕ) → m b ≡ pool_refs p b)
      → Locked k limit m p (take_in_range k take_ref p i ret)
  unfolding take_in_range take_hold
  take_in_range-Locked true p i ret m g same =
      λ w f. take_got-Moves (k.dma_buf_get (slot_at p.slot i).fd w) w p i ret m g f same refl
  take_in_range-Locked false p i ret m g same = (
    nothing_held,
    λ b. omega (arith, same b, held_refs-set_same b p.slot i (held_slot p i) refl),
    g (ok (record { seq = (slot_at p.slot i).seq; slot = i; ref = none })),
  )

  take_best-Locked :
      (o : Option ℕ) (take_ref : Bool) (p : Pool) (ret : Result Taken → Thread k) (m : Holding)
      → Gives take_ref ret
      → ((b : ℕ) → m b ≡ pool_refs p b)
      → Locked k limit m p (take_best k o take_ref p ret)
  unfolding take_best
  take_best-Locked none take_ref p ret m g same =
      empty_handed take_ref ret m
        (record p { stats = record (p.stats) { dequeued_empty = inc64 p.stats.dequeued_empty } }) g
        same
  take_best-Locked (some i) take_ref p ret m g same =
      elim (range_decide p.range_end_ns p.loop (slot_at p.slot i).timestamp_ns)
        as (λ d. Locked k limit m p (elim d [
          | drop ↦ write (dropped p i) (unlock (ret (err eagain)))
          | deliver ↦ write (count_wrap p i) (take_in_range k take_ref (count_wrap p i) i ret)
          | wrap ↦ write (count_wrap p i) (take_in_range k take_ref (count_wrap p i) i ret)
        ])) [
          | drop ↦ empty_handed take_ref ret m (dropped p i) g (λ b. omega (
            arith,
            same b,
            held_refs-set_same b p.slot i (record (slot_at p.slot i) { state = idle; seq = 0 })
                refl,
          ))
          | deliver ↦ take_in_range-Locked take_ref (count_wrap p i) i ret m g (wraps p i m same)
          | wrap ↦ take_in_range-Locked take_ref (count_wrap p i) i ret m g (wraps p i m same)
        ]
    where
      wraps :
          (p : Pool) (i : ℕ) (m : Holding)
          → ((b : ℕ) → m b ≡ pool_refs p b)
          → (b : ℕ) → m b ≡ pool_refs (count_wrap p i) b
      wraps p i m same b = omega (arith, same b, ap (held_refs b) (count_wrap-slot p i))

  take-Carries :
      (take_ref : Bool) (ret : Result Taken → Thread k)
      → Gives take_ref ret
      → Carries k limit nothing_held (take k take_ref ret)
  unfolding take
  take-Carries take_ref ret g p v =
      take_best-Locked (oldest p) take_ref p ret _ g (λ b. omega arith)

  pub acquire-Carries : Carries k limit nothing_held (acquire k)
  unfolding acquire
  acquire-Carries = take-Carries true _ gives
    where
      gives : Gives true (λ r. done (buffer (acquire_out r)))
      gives (ok t) b = refl
      gives (err e) b = refl

  dequeue_read-Gives : Gives false (dequeue_read k)
  unfolding dequeue_read
  dequeue_read-Gives (ok t) = λ p b. refl
  dequeue_read-Gives (err e) = λ b. refl

  pub dequeue-Carries : Carries k limit nothing_held (dequeue k)
  unfolding dequeue
  dequeue-Carries = take-Carries false _ dequeue_read-Gives

  release_slot-Locked :
      (o : Option ℕ) (p : Pool) (m : Holding)
      → ((b : ℕ) → m b ≡ pool_refs p b)
      → Locked k limit m p (release_slot k o p)
  unfolding release_slot
  release_slot-Locked none p m same =
      leaves k laws m (reject_unknown p) (Reply.done (err esrch)) same (λ b. refl)
  release_slot-Locked (some i) p m same = (
    nothing_held,
    λ b. omega (
      arith,
      same b,
      held_refs-set_same b p.slot i (record (slot_at p.slot i) { state = idle }) refl,
    ),
    λ b. refl,
  )

  pub release-Carries : (q : ℕ) → Carries k limit nothing_held (release k q)
  unfolding release
  release-Carries q p v = release_slot-Locked (find_held p.nslots 0 p.slot q) p _ (λ b. omega arith)

  pub peek-Carries : Carries k limit nothing_held (peek k)
  unfolding peek
  peek-Carries p v = elim (Option-cases (oldest p)) [
    | inl n ↦ rw (n, Locked) (nothing_held, λ b. refl, λ b. refl)
    | inr (i, n) ↦ rw (n, Locked) (nothing_held, λ b. refl, λ b. refl)
  ]
