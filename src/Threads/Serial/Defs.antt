-- ===== src/Threads/Serial/Defs.antt =====
-- A serial order of the calls of src/vcam_pool.c, and what it has to do with the threads.
use vcam_kmod.Base.{ℕ, ◌≡◌, ◌≢◌, ◌⊎◌, Option, none, some, List, [], ◌∷◌, ◌==◌, if◌then◌else◌}
use vcam_kmod.Uapi.{Dequeue}
use vcam_kmod.Kernel.{Kernel, ok}
use vcam_kmod.Pool.State.{Pool}
use vcam_kmod.Pool.Step.{Call, Reply, frame}
use vcam_kmod.Pool.Invariant.Defs.{IsValid}
use vcam_kmod.Threads.Prog.{done}
use vcam_kmod.Threads.Calls.{Thread}
use vcam_kmod.Threads.System.{System}
use vcam_kmod.Threads.Discipline.{Does, After, Exactly, Inside, Before, Guarded, told}

-- The calls that have taken effect, the last one first: each thread with its reply.
abbrev pub Order : Type 0
Order = List (ℕ × Reply)

abbrev pub answer : ℕ → Order → Option Reply
answer i [] = none
answer i ((j, r) ∷ ts) = if j == i then some r else answer i ts

-- No call that releases the frame of the reply has entered its critical section.
abbrev pub Unreleased : (ℕ → Call) → Option ℕ → Order → Reply → Type 0
Unreleased calls o ts r =
    (d : Dequeue)
    → r ≡ frame (ok d)
    → (j : ℕ) → calls j ≡ Call.release d.seq
    → (answer j ts ≡ none) × (o ≢ some j)

module _ (k : Kernel) (calls : ℕ → Call) where
  -- From the pool `p0`, the calls of `ts`, made one after the other, lead to the pool, and each
  -- thread's call is made once.
  pub data Serial (p0 : Pool) : Order → Pool → Type 0 where
    origin : Serial p0 [] p0
    then_call :
        {ts : Order} {p q : Pool} (i : ℕ) (r : Reply)
        → Serial p0 ts p
        → answer i ts ≡ none
        → Does k (calls i) p r q
        → Serial p0 ((i, r) ∷ ts) q

  module _ (p0 : Pool) where
    -- A thread outside the critical section: it has not been there yet, or it has its answer,
    -- the pose included where the first pool is valid and nobody has released the frame.
    abbrev pub IsOutside : Option ℕ → ℕ → Order → Thread k → Type 0
    IsOutside o i ts t =
        ((answer i ts ≡ none) × Before k (calls i) t)
        ⊎ ((r : Reply) × (answer i ts ≡ some r)
            × After k (calls i) r t
            × (IsValid p0 → Unreleased calls o ts r → Exactly k (calls i) r t))

    -- The pool is the one that the order leads to, except for the thread that holds the mutex.
    abbrev pub Owns : Option ℕ → Order → (q p : Pool) → (ℕ → Thread k) → Type 0
    Owns none ts q p threads = (p ≡ q) × ((i : ℕ) → IsOutside none i ts (threads i))
    Owns (some o) ts q p threads =
        (answer o ts ≡ none)
        × Inside k (calls o) q p (threads o)
        × ((i : ℕ) → o ≢ i → IsOutside (some o) i ts (threads i))
        × Guarded (calls o) q p

    pub record Follows (owner : Option ℕ) (p : Pool) (threads : ℕ → Thread k) (ts : Order)
        : Type 0 where
      pub reached : Pool
      pub serial : Serial p0 ts reached
      pub owns : Owns owner ts reached p threads

  -- The reply is that of the order, or one that the call may give at any time without an effect.
  abbrev pub Answered : ℕ → Order → Reply → Type 0
  Answered i ts r =
      ((r' : Reply) × (answer i ts ≡ some r') × (told r' ≡ told r))
      ⊎ ((answer i ts ≡ none) × ((p : Pool) → Does k (calls i) p r p))

  -- The calls have been made in the order `ts`: it leads to the pool as it is while the mutex is free,
  -- and a thread that has returned has the reply of its call.
  pub record Serialised (p0 : Pool) (s : System k) (ts : Order) : Type 0 where
    pub reached : Pool
    pub serial : Serial p0 ts reached
    pub settled : s.owner ≡ none → s.pool ≡ reached
    pub answers : (i : ℕ) (r : Reply) → s.thread i ≡ done r → Answered i ts r
