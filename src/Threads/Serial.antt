-- ===== src/Threads/Serial.antt =====
-- Threads that share the pool of src/vcam_pool.c, against the same calls made one after the other.
pub mod Defs
pub mod Runs
pub mod Shown
pub mod Outside
pub mod Moves
use vcam_kmod.Base.{
  ℕ, ◌≡◌, ◌≢◌, inl, inr, Option, none, some, List, [], ◌++◌, subst, sym, refl, arith, ℕ_discrete,
}
use vcam_kmod.Kernel.{Kernel}
use vcam_kmod.Pool.State.{Pool}
use vcam_kmod.Pool.Step.{Call, Reply}
use vcam_kmod.Pool.Invariant.Defs.{IsValid}
use vcam_kmod.Pool.Safety.{step-IsValid}
use vcam_kmod.Pool.Conserved.Defs.{IsConserved}
use vcam_kmod.Pool.Conserved.{step-IsConserved}
use vcam_kmod.Threads.Prog.{done}
use vcam_kmod.Threads.Calls.{Thread}
use vcam_kmod.Threads.Discipline.{Inside}
use vcam_kmod.Threads.Implements.{program-Before}
use vcam_kmod.Threads.System.{System, Event, play, start}
use vcam_kmod.Threads.Serial.Defs.{
  Order, Serial, origin, then_call, IsOutside, Owns, Follows, Answered, Serialised,
}
use vcam_kmod.Threads.Serial.Runs.{Serial-IsValid, Serial-IsConserved}
use vcam_kmod.Threads.Serial.Moves.{play-Follows}

module _ (k : Kernel) (calls : ℕ → Call) where
  module _ (p0 : Pool) where
    IsOutside-Answered :
        (o : Option ℕ) (ts : Order) (i : ℕ) (r : Reply)
        → IsOutside k calls p0 o i ts (done r)
        → Answered k calls i ts r
    IsOutside-Answered o ts i r (inl (fresh, b)) = inr (fresh, b)
    IsOutside-Answered o ts i r (inr (r', found, b, _)) = inl (r', found, b)

    -- A thread that is not in the critical section.
    pub Owns-IsOutside :
        (o : Option ℕ) (ts : Order) (q p : Pool) (th : ℕ → Thread k) (i : ℕ) (t : Thread k)
        → Owns k calls p0 o ts q p th
        → th i ≡ t
        → (Inside k (calls i) q p t → ⊥)
        → (o ≢ some i) × IsOutside k calls p0 o i ts t
    Owns-IsOutside none ts q p th i t (_, h) e out =
        (λ z. ground arith, subst (IsOutside k calls p0 none i ts) e (h i))
    Owns-IsOutside (some o) ts q p th i t (_, inside, h, _) e out = elim (ℕ_discrete o i) [
      | yes same ↦ absurd (
          out (
            subst (Inside k (calls i) q p) e
              (subst (λ j. Inside k (calls j) q p (th j)) same inside)))
      | no m ↦ (λ z. m (ground arith), subst (IsOutside k calls p0 (some o) i ts) e (h i m))
    ]

    Owns-settled :
        (o : Option ℕ) (ts : Order) (q p : Pool) (th : ℕ → Thread k)
        → Owns k calls p0 o ts q p th
        → o ≡ none
        → p ≡ q
    Owns-settled none ts q p th h e = h.0
    Owns-settled (some o) ts q p th h e = ground arith

  -- After any steps from the start.
  pub start-Follows :
      (p : Pool) (w : k.World) (es : List (Event k))
      → (ts : Order) × Follows k calls p
          (play k es (start k calls p w)).owner
          (play k es (start k calls p w)).pool
          (play k es (start k calls p w)).thread
          ts
  start-Follows p w es =
      let (new, f) = play-Follows k calls p es (start k calls p w) [] (record {
        reached = p;
        serial = origin;
        owns = (refl, λ i. inl (refl, program-Before k w (calls i)));
      }) in
      (new ++ [], f)

  pub Follows-Serialised :
      (p : Pool) (s : System k) (ts : Order)
      → Follows k calls p s.owner s.pool s.thread ts
      → Serialised k calls p s ts
  Follows-Serialised p s ts f = record {
    reached = f.reached;
    serial = f.serial;
    settled = Owns-settled p s.owner ts f.reached s.pool s.thread f.owns;
    answers = λ i r e.
        IsOutside-Answered p s.owner ts i r
          (Owns-IsOutside p s.owner ts f.reached s.pool s.thread i (done r) f.owns e (λ z. z)).1;
  }

  -- Any threads call the pool at the same time, each one call, and their steps and those of other
  -- processes alternate in any way. There is an order of the calls so that the same calls, each
  -- made in one piece, lead to the pool as it is whenever the mutex is free, and every thread that
  -- has returned has the reply of its call in that order, but for the pose of a dequeued frame; a
  -- thread that has returned and is not in the order has a reply that its call may give at any pool
  -- without changing it. The order only grows as the threads go on: a call that has taken effect
  -- stays before all later ones.
  pub play-Serialised :
      (p : Pool) (w : k.World) (es es' : List (Event k))
      → let s = play k es (start k calls p w) in
        (ts new : Order) × Serialised k calls p s ts
        × Serialised k calls p (play k es' s) (new ++ ts)
  play-Serialised p w es es' =
      let s = play k es (start k calls p w) in
      let (ts, f) = start-Follows p w es in
      let (new, g) = play-Follows k calls p es' s ts f in
      (ts, new, Follows-Serialised p s ts f, Follows-Serialised p (play k es' s) (new ++ ts) g)

  pub Follows-IsValid :
      (p : Pool) (s : System k) (ts : Order)
      → IsValid p × IsConserved p
      → Follows k calls p s.owner s.pool s.thread ts
      → s.owner ≡ none
      → IsValid s.pool × IsConserved s.pool
  Follows-IsValid p s ts v f e =
      rw (Owns-settled p s.owner ts f.reached s.pool s.thread f.owns e)
        (Serial-IsValid k calls v.0 f.serial, Serial-IsConserved k calls v.0 v.1 f.serial)

  -- If threads, each with one call, start on a valid pool whose counters agree with its slots, the
  -- pool is valid and its counters agree with its slots whenever the mutex is free, however the
  -- steps of the threads and of other processes alternate.
  pub play-IsValid :
      (p : Pool) (w : k.World) (es : List (Event k))
      → IsValid p
      → IsConserved p
      → (play k es (start k calls p w)).owner ≡ none
      → IsValid (play k es (start k calls p w)).pool
        × IsConserved (play k es (start k calls p w)).pool
  play-IsValid p w es v b e =
      let (ts, f) = start-Follows p w es in
      Follows-IsValid p (play k es (start k calls p w)) ts (v, b) f e
