-- ===== src/Pool/Refs/Calls.antt =====
-- The dma-buf references that each call of src/vcam_pool.c takes and gives back.
use vcam_kmod.Base.{
  ℕ, ◌+◌, ◌≤◌, ◌<◌, ◌≡◌, inl, inr, refl, ap, ◌∙◌, arith, true, false, Bool, Option, none, some,
  Option-cases,
}
use vcam_kmod.Base.Int.{ℤ}
use vcam_kmod.Uapi.{Format}
use vcam_kmod.Kernel.{Kernel, CountsRefs, Result, Errno, ok, err, eagain}
use vcam_kmod.Logic.Range.{Decision, deliver, wrap, drop, range_decide}
use vcam_kmod.Pool.State.{Pool, slot_at, idle}
use vcam_kmod.Pool.Producer.{
  register, register_got, register_free, unregister, find_unbound, registered, unregistered, put_if,
  submit, submitted,
}
use vcam_kmod.Pool.Consumer.{
  take, take_best, take_in_range, take_got, acquire, dequeue, count_wrap, oldest, hold, dropped,
  release, find_held,
}
use vcam_kmod.Pool.Control.{poll, set_range, set_pose, set_backend, attach}
use vcam_kmod.Pool.Step.{Call, Reply, buffer, step}
use vcam_kmod.Pool.Invariant.Defs.{IsValid}
use vcam_kmod.Pool.Invariant.Find.{find_unbound-some}
use native.Mathlib.Nat.{le_trans}
use vcam_kmod.Pool.Change.Consumer.{took}
use vcam_kmod.Pool.Refs.Held.{slot_refs, held_refs, held_refs-set, held_refs-set_same, slot_refs-le}

-- The reference that a reply hands to the caller.
abbrev pub given : ℕ → Reply → ℕ
given b (buffer (ok (_, ref))) = slot_refs b ref
given b _ = 0

given-took-err :
    (b : ℕ) (take_ref : Bool) (p : Pool) (e : Errno) → given b (took take_ref p (err e)) ≡ 0
given-took-err b true p e = refl
given-took-err b false p e = refl

pub count_wrap-slot : (p : Pool) (i : ℕ) → (count_wrap p i).slot ≡ p.slot
count_wrap-slot p i = ground arith

module _ (k : Kernel) {limit : ℕ} (laws : CountsRefs k limit) where
  abbrev pub Balanced : ℕ → Pool → k.World → Pool → k.World → ℕ → Type 0
  Balanced b p w q w' extra =
      k.refs b w' + held_refs b p.slot ≡ k.refs b w + held_refs b q.slot + extra

  -- The counters have room, and the pool's references are real.
  pub record Sound (p : Pool) (w : k.World) : Type 0 where
    pub room : (b : ℕ) → k.refs b w < limit
    pub real : (b : ℕ) → held_refs b p.slot ≤ k.refs b w

  module _ (p : Pool) (v : IsValid p) (w : k.World) (s : Sound p w) (b : ℕ) where
    open (v.pool) use {size, count, each}

    register_free-Balanced :
        (o : Option ℕ) (c : ℕ) (w' : k.World) (fd : ℤ) (fmt : Format)
        → find_unbound p.nslots 0 p.slot ≡ o
        → k.dma_buf_get fd w ≡ (ok c, w')
        → let (_, q, w2) = register_free k o p c fd fmt w' in Balanced b p w q w2 0
    unfolding register_free
    register_free-Balanced none c w' fd fmt e g =
        ground
          (arith, laws.get_ok fd w b g (s.room c), laws.get_ok fd w c g (s.room c), laws.put c w' b)
    register_free-Balanced (some i) c w' fd fmt e g =
        let (_, h, u) = find_unbound-some p.nslots 0 p.slot i e in
        ground (
          arith,
          laws.get_ok fd w b g (s.room c),
          each i,
          held_refs-set b p.slot i (registered (slot_at p.slot i) c fd fmt),
        )

    register_got-Balanced :
        (r : Result ℕ × k.World) (fd : ℤ) (fmt : Format)
        → k.dma_buf_get fd w ≡ r
        → let (_, q, w2) = register_got k r p fd fmt in Balanced b p w q w2 0
    unfolding register_got
    register_got-Balanced (ok c, w') fd fmt g =
        register_free-Balanced (find_unbound p.nslots 0 p.slot) c w' fd fmt refl g
    register_got-Balanced (err e, w') fd fmt g = omega (arith, laws.get_err fd w b g)

    register-Balanced :
        (fd : ℤ) (fmt : Format) → let (_, q, w2) = register k p fd fmt w in Balanced b p w q w2 0
    unfolding register
    register-Balanced fd fmt =
        let got = register_got-Balanced (k.dma_buf_get fd w) fd fmt refl in ground (arith, got)

    unregister-Balanced : (i : ℕ) → let (_, q, w2) = unregister k p i w in Balanced b p w q w2 0
    unfolding unregister put_if
    unregister-Balanced i = elim (Option-cases (slot_at p.slot i).dbuf) [
      | inl e ↦ ground (arith, each i)
      | inr (c, e) ↦
          let real = le_trans (slot_refs-le c p.slot i) (s.real c) in
          ground (
            arith,
            real,
            held_refs-set b p.slot i (unregistered (slot_at p.slot i)),
            laws.put c w b,
          )
    ]

    hold-held_refs : (i : ℕ) → held_refs b (hold (count_wrap p i) i).slot ≡ held_refs b p.slot
    hold-held_refs i =
        held_refs-set_same b (count_wrap p i).slot i _ refl ∙ ap (held_refs b) (count_wrap-slot p i)

    take_got-Balanced :
        (i : ℕ) (r : Result ℕ × k.World)
        → k.dma_buf_get (slot_at (count_wrap p i).slot i).fd w ≡ r
        → let (t, q, w2) = take_got k r (count_wrap p i) i in
          Balanced b p w q w2 (given b (took true q t))
    unfolding take_got
    take_got-Balanced i (ok c, w') g =
        omega (
          arith,
          hold-held_refs i,
          laws.get_ok (slot_at (count_wrap p i).slot i).fd w b g (s.room c),
        )
    take_got-Balanced i (err e, w') g = omega (
      arith,
      ap (held_refs b) (count_wrap-slot p i),
      laws.get_err (slot_at (count_wrap p i).slot i).fd w b g,
    )

    take_in_range-Balanced :
        (take_ref : Bool) (i : ℕ)
        → let (t, q, w2) = take_in_range k take_ref (count_wrap p i) i w in
          Balanced b p w q w2 (given b (took take_ref q t))
    unfolding take_in_range
    take_in_range-Balanced false i = omega (arith, hold-held_refs i)
    take_in_range-Balanced true i =
        take_got-Balanced i (k.dma_buf_get (slot_at (count_wrap p i).slot i).fd w) refl

    take_best-Balanced :
        (o : Option ℕ) (take_ref : Bool)
        → let (t, q, w2) = take_best k o take_ref p w in
          Balanced b p w q w2 (given b (took take_ref q t))
    unfolding take_best
    take_best-Balanced none take_ref = omega (arith, given-took-err b take_ref _ eagain)
    take_best-Balanced (some i) take_ref =
        by_decision (range_decide p.range_end_ns p.loop (slot_at p.slot i).timestamp_ns) refl
      where
        by_decision :
            (d : Decision)
            → range_decide p.range_end_ns p.loop (slot_at p.slot i).timestamp_ns ≡ d
            → let (t, q, w2) = take_best k (some i) take_ref p w in
              Balanced b p w q w2 (given b (took take_ref q t))
        by_decision drop r =
            rw (r, take_best)
              (omega (
                arith,
                given-took-err b take_ref (dropped p i) eagain,
                held_refs-set_same b p.slot i (record (slot_at p.slot i) { state = idle; seq = 0 })
                    refl,
              ))
        by_decision deliver r = rw (r, take_best) (take_in_range-Balanced take_ref i)
        by_decision wrap r = rw (r, take_best) (take_in_range-Balanced take_ref i)

    take-Balanced :
        (take_ref : Bool)
        → let (t, q, w2) = take k take_ref p w in Balanced b p w q w2 (given b (took take_ref q t))
    unfolding take
    take-Balanced take_ref = take_best-Balanced (oldest p) take_ref

    release-held_refs : (q : ℕ) → held_refs b (release p q).1.slot ≡ held_refs b p.slot
    unfolding release
    release-held_refs q = elim (Option-cases (find_held p.nslots 0 p.slot q)) [
      | inl e ↦ rw (e, release)
      | inr (i, e) ↦ rw (e, release) (held_refs-set_same b p.slot i _ refl)
    ]

    submit-held_refs :
        (i q : ℕ) (t : ℤ) (rot flags : ℕ)
        → held_refs b (submit p i q t rot flags).1.slot ≡ held_refs b p.slot
    unfolding submit
    submit-held_refs i q t rot flags =
        ground (arith, held_refs-set_same b p.slot i (submitted p (slot_at p.slot i) q t rot flags))

    -- In a valid pool whose references are real, and with room in the counters, every call changes
    -- the references to each buffer by what the pool's slots gain or lose, and by the one that
    -- `vcam_pool_acquire` hands out, errors included.
    pub step-Balanced :
        (c : Call) → let (r, q, w2) = step k c p w in Balanced b p w q w2 (given b r)
    unfolding step acquire dequeue poll set_range set_pose set_backend attach
    step-Balanced (Call.register fd fmt) = register-Balanced fd fmt
    step-Balanced (Call.unregister i) = unregister-Balanced i
    step-Balanced (Call.submit i q t rot flags) = omega (arith, submit-held_refs i q t rot flags)
    step-Balanced Call.acquire = take-Balanced true
    step-Balanced Call.dequeue = take-Balanced false
    step-Balanced (Call.release q) = omega (arith, release-held_refs q)
    step-Balanced c = ground arith
