-- ===== src/Pool/Numbers.antt =====
-- The numbers of the frames that `vcam_pool_submit` of src/vcam_pool.c accepts.
use vcam_kmod.Base.{ℕ, ◌<◌, ◌≤◌, ◌≡◌, ◌↔◌, arith, refl, false, List, [], ◌∷◌, ◌++◌, ltb, ◌==◌, ◌||◌}
use vcam_kmod.Base.Int.{ℤ}
use vcam_kmod.Kernel.{Kernel, ok}
use vcam_kmod.Pool.State.{Pool, init, slot_at, idle, max_slots}
use vcam_kmod.Pool.Producer.{submit}
use vcam_kmod.Pool.Step.{Call, Reply, step, run, accepted}
use vcam_kmod.Pool.Answers.{submit_iff}
use vcam_kmod.Pool.Change.Defs.{Change, keep, bind, unbind, fill, discard, hand_out, give_back}
use vcam_kmod.Pool.Change.Step.{step-Change}
use vcam_kmod.Pool.Fifo.Order.{all_accepted}

-- `n` is greater than each number of the list.
abbrev pub Above : ℕ → List ℕ → Type 0
Above n [] = Unit {0}
Above n (m ∷ ms) = (m < n) × Above n ms

Above-append : (n : ℕ) (ms ns : List ℕ) → Above n (ms ++ ns) ↔ (Above n ms × Above n ns)
Above-append n [] ns = (λ a. (tt, a), λ a. a.1)
Above-append n (m ∷ ms) ns =
    let (to, from) = Above-append n ms ns in
    (λ a. ((a.0, (to a.1).0), (to a.1).1), λ a. (a.0.0, from (a.0.1, a.1)))

-- A number is beyond the last one after a change exactly when it was before, and is beyond what has
-- been accepted.
abbrev Follows : ℕ → Pool → List ℕ → Pool → Type 0
Follows n p ins q = (q.last_submitted_seq < n) ↔ ((p.last_submitted_seq < n) × Above n ins)

same-Follows : (n : ℕ) (p q : Pool) → q.last_submitted_seq ≡ p.last_submitted_seq → Follows n p [] q
same-Follows n p q e = (λ h. (omega (arith, e, h), tt), λ h. omega (arith, e, h.0))

Change-Follows :
    {c : Call} {r : Reply} {p q : Pool} (n : ℕ) → Change c r p q → Follows n p (accepted c r) q
Change-Follows {p = p} {q = q} n (keep e s t) = rw t.0 (same-Follows n p q s.submitted)
Change-Follows {p = p} {q = q} n (bind i b fd fmt c e good w s t) =
    rw t.0 (same-Follows n p q s.submitted)
Change-Follows {p = p} {q = q} n (unbind i c e w s t) = rw t.0 (same-Follows n p q s.submitted)
Change-Follows n (fill i seq time rot flags c e new w s d t) =
    rw t.0
      (λ h. (omega (arith, s, new, h), (omega (arith, s, h), tt)), λ h. omega (arith, s, h.1.0))
Change-Follows {p = p} {q = q} n (discard i b c old late w s t) =
    rw t.0 (same-Follows n p q s.submitted)
Change-Follows {p = p} {q = q} n (hand_out i b c old w s d t) = rw t.0 (same-Follows n p q s)
Change-Follows {p = p} {q = q} n (give_back i c e w s t) = rw t.0 (same-Follows n p q s.submitted)

run-Follows :
    (k : Kernel) (n : ℕ) (cs : List (Call × k.World)) (p : Pool)
    → let (tr, q) = run k cs p in Follows n p (all_accepted tr) q
unfolding run
run-Follows k n [] p = (λ h. (h, tt), λ h. h.0)
run-Follows k n ((c, w) ∷ cs) p =
    let one = Change-Follows n (step-Change k c p w) in
    let rest = run-Follows k n cs (step k c p w).1 in
    let (split, join) = Above-append n (accepted c (step k c p w).0) _ in
    (
      λ h.
          let (here, later) = rest.0 h in
          let (start, first) = one.0 here in (start, join (first, later)),
      λ h. let (first, later) = split h.1 in rest.1 (one.1 (h.0, first), later),
    )

init_last : (p : Pool) (n : ℕ) → 0 < n → n ≤ max_slots → (init p n).1.last_submitted_seq ≡ 0
unfolding init
init_last p n lo hi = let good : (n == 0 || ltb max_slots n) ≡ false = ground arith in rw good refl

-- From a pool that `vcam_pool_init` has set up with 1 to 8 slots, after any calls, a frame is
-- accepted exactly when its slot is one of the pool's, the slot is idle, and its number is greater
-- than 0 and than every number accepted before.
pub init-submit_iff :
    (k : Kernel) (cs : List (Call × k.World)) (p : Pool) (n : ℕ)
    → 0 < n
    → n ≤ max_slots
    → (i seq : ℕ) (t : ℤ) (rot flags : ℕ)
    → let (tr, q) = run k cs (init p n).1 in
      ((submit q i seq t rot flags).0 ≡ ok tt) ↔ (
        (i < q.nslots)
        × ((slot_at q.slot i).state ≡ idle)
        × (0 < seq)
        × Above seq (all_accepted tr))
init-submit_iff k cs p n lo hi i seq t rot flags =
    let q = (run k cs (init p n).1).1 in
    let (came, goes) = submit_iff q i seq t rot flags in
    let (before, after) = run-Follows k seq cs (init p n).1 in
    let zeroed = init_last p n lo hi in
    (
      λ e.
          let s = came e in
          let (last, above) = before s.is_new in
          (s.in_range, s.is_free, omega (arith, last, zeroed), above),
      λ h. goes (record {
        in_range = h.0;
        is_free = h.1;
        is_new = after (omega (arith, zeroed, h.2), h.3);
      }),
    )
