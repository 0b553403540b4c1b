-- ===== src/Pool/Counters.antt =====
-- The counters of src/vcam_pool.c, and the frames that the calls add, deliver and give back.
use vcam_kmod.Base.{
  ℕ, ◌+◌, ◌%◌, ◌^◌, ◌<◌, ◌≤◌, ◌≡◌, refl, arith, false, List, [], ◌∷◌, ◌++◌, length, ltb, ◌==◌, ◌||◌,
  ap,
}
use vcam_kmod.Kernel.{Kernel, ok}
use vcam_kmod.Uapi.{Stats}
use vcam_kmod.Pool.State.{Pool, init, zero_stats, max_slots}
use vcam_kmod.Pool.Producer
use vcam_kmod.Pool.Consumer
use vcam_kmod.Pool.Control
use vcam_kmod.Pool.Step.{Call, Reply, done, step, run, accepted, delivered}
use vcam_kmod.Pool.Fifo.Order.{all_accepted, all_delivered}

-- The frame that a call gives back.
abbrev pub returned : Call → Reply → List ℕ
returned (Call.release seq) (done (ok _)) = seq ∷ []
returned _ _ = []

abbrev pub all_returned : List (Call × Reply) → List ℕ
all_returned [] = []
all_returned ((c, r) ∷ tr) = returned c r ++ all_returned tr

-- The three counters, each with what is added to it.
pub record Counted (s t : Stats) (ins outs back : List ℕ) : Type 0 where
  pub submitted : t.submitted ≡ (s.submitted + length ins) % 2 ^ 64
  pub dequeued : t.dequeued ≡ (s.dequeued + length outs) % 2 ^ 64
  pub bound : t.bound ≡ (s.bound + length outs) % 2 ^ 64
  pub released : t.released ≡ (s.released + length back) % 2 ^ 64

-- Each fits its `u64`.
pub record IsStats (s : Stats) : Type 0 where
  pub submitted : s.submitted < 2 ^ 64
  pub dequeued : s.dequeued < 2 ^ 64
  pub bound : s.bound < 2 ^ 64
  pub released : s.released < 2 ^ 64

length-append : (xs ys : List ℕ) → length (xs ++ ys) ≡ length xs + length ys
length-append [] ys = omega arith
length-append (x ∷ xs) ys = omega (arith, length-append xs ys)

module _ {s t : Stats} {ins outs back : List ℕ} (one : Counted s t ins outs back) where
  Counted-IsStats : IsStats t
  Counted-IsStats = ground (arith, one.submitted, one.dequeued, one.bound, one.released)

  Counted-append :
      {u : Stats} (ins2 outs2 back2 : List ℕ)
      → Counted t u ins2 outs2 back2
      → Counted s u (ins ++ ins2) (outs ++ outs2) (back ++ back2)
  Counted-append ins2 outs2 back2 two = record {
    submitted = omega (arith, length-append ins ins2, one.submitted, two.submitted);
    dequeued = omega (arith, length-append outs outs2, one.dequeued, two.dequeued);
    bound = omega (arith, length-append outs outs2, one.bound, two.bound);
    released = omega (arith, length-append back back2, one.released, two.released);
  }

module _ (k : Kernel) where
  step-Counted :
      (p : Pool) (w : k.World) (c : Call)
      → IsStats p.stats
      → let (r, q, _) = step k c p w in
        Counted p.stats q.stats (accepted c r) (delivered c r) (returned c r)
  unfolding step Producer.register Producer.unregister Producer.submit Consumer.take
      Consumer.acquire Consumer.dequeue Consumer.release Control.poll Control.set_range
      Control.set_pose Control.set_backend Control.attach
  step-Counted p w c s = ground (arith, s.submitted, s.dequeued, s.released, s.bound)

  run-Counted :
      (cs : List (Call × k.World)) (p : Pool)
      → IsStats p.stats
      → let (tr, q) = run k cs p in
        Counted p.stats q.stats (all_accepted tr) (all_delivered tr) (all_returned tr)
  unfolding run
  run-Counted [] p s = ground (arith, s.submitted, s.dequeued, s.released, s.bound)
  run-Counted ((c, w) ∷ cs) p s =
      let (r, q, _) = step k c p w in
      let one = step-Counted p w c s in
      Counted-append one _ _ _ (run-Counted cs (step k c p w).1 (Counted-IsStats one))

  init-zero : (p : Pool) (n : ℕ) → 0 < n → n ≤ max_slots → (init p n).1.stats ≡ zero_stats
  unfolding init
  init-zero p n lo hi =
      let good : (n == 0 || ltb max_slots n) ≡ false = ground arith in rw good refl

  -- The counters count: from a pool that `vcam_pool_init` has set up with 1 to 8 slots, through any
  -- calls, `submitted` is the number of frames accepted, `dequeued` and `bound` are the number of
  -- frames delivered, and `released` is the number of frames given back, modulo 2 ^ 64.
  pub init-counters :
      (cs : List (Call × k.World)) (p : Pool) (n : ℕ)
      → 0 < n
      → n ≤ max_slots
      → let (tr, q) = run k cs (init p n).1 in
        (q.stats.submitted ≡ length (all_accepted tr) % 2 ^ 64)
        × (q.stats.dequeued ≡ length (all_delivered tr) % 2 ^ 64)
        × (q.stats.bound ≡ length (all_delivered tr) % 2 ^ 64)
        × (q.stats.released ≡ length (all_returned tr) % 2 ^ 64)
  init-counters cs p n lo hi =
      let z = init-zero p n lo hi in
      let c = run-Counted cs (init p n).1 (rw z (ground arith)) in
      (
        omega (arith, c.submitted, ap (λ t. t.submitted) z),
        omega (arith, c.dequeued, ap (λ t. t.dequeued) z),
        omega (arith, c.bound, ap (λ t. t.bound) z),
        omega (arith, c.released, ap (λ t. t.released) z),
      )
