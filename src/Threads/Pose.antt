-- ===== src/Threads/Pose.antt =====
-- The pose that `vcam_pool_dequeue` of src/vcam_pool.c reads after it has released the mutex, among
-- threads.
use vcam_kmod.Base.{ℕ, ◌≡◌, ◌≢◌, ◌∙◌, inl, inr, Option, some, none, List, ◌++◌, ap, sym}
use vcam_kmod.Uapi.{Dequeue}
use vcam_kmod.Kernel.{Kernel, ok}
use vcam_kmod.Pool.State.{Pool}
use vcam_kmod.Pool.Step.{Call, Reply, frame}
use vcam_kmod.Pool.Invariant.Defs.{IsValid}
use vcam_kmod.Threads.Prog.{done}
use vcam_kmod.Threads.Calls.{program, release, Thread}
use vcam_kmod.Threads.Discipline.{told}
use vcam_kmod.Threads.System.{Event, play, start}
use vcam_kmod.Threads.Serial.Defs.{Owns, Order, Serialised, IsOutside, Unreleased, answer}
use vcam_kmod.Threads.Serial.Shown.{delivery_has_effect}
use vcam_kmod.Threads.Serial.Moves.{play-Follows}
use vcam_kmod.Threads.Serial.{start-Follows, Follows-Serialised, Owns-IsOutside}

-- The number of the frame of a reply.
abbrev number_of : Reply → ℕ
number_of (frame (ok d)) = d.seq
number_of r = 0

module _ (k : Kernel) (calls : ℕ → Call) where
  -- A call that waits for the mutex has not been in its critical section.
  waits_outside :
      (p : Pool) (o : Option ℕ) (ts : Order) (q q' : Pool) (th : ℕ → Thread k) (j m : ℕ)
      → Owns k calls p o ts q q' th
      → th j ≡ program k (Call.release m)
      → (answer j ts ≡ none) × (o ≢ some j)
  unfolding program release
  waits_outside p o ts q q' th j m h e =
      let (free, out) = Owns-IsOutside k calls p o ts q q' th j _ h e (λ z. z) in
      elim out [ inl b ↦ (b.0, free) | inr b ↦ absurd b.2 ]

  Unreleased-told :
      (o : Option ℕ) (ts : Order) (d : Dequeue) (r : Reply)
      → told r ≡ told (frame (ok d))
      → ((j : ℕ) → calls j ≡ Call.release d.seq → (answer j ts ≡ none) × (o ≢ some j))
      → Unreleased calls o ts r
  Unreleased-told o ts d r same n d' e j c =
      let number : d'.seq ≡ d.seq = sym (ap (λ x. number_of (told x)) e) ∙ ap number_of same in
      n j (c ∙ ap Call.release number)

  IsOutside-answer :
      (p : Pool) (o : Option ℕ) (ts : Order) (i : ℕ) (d : Dequeue)
      → IsValid p
      → ((j : ℕ) → calls j ≡ Call.release d.seq → (answer j ts ≡ none) × (o ≢ some j))
      → IsOutside k calls p o i ts (done (frame (ok d)))
      → answer i ts ≡ some (frame (ok d))
  IsOutside-answer p o ts i d v n (inl (fresh, b)) = absurd (delivery_has_effect v (b p))
  IsOutside-answer p o ts i d v n (inr (r, found, same, exactly)) =
      found ∙ ap some (exactly v (Unreleased-told o ts d r same n))

  -- The pose that a thread's dequeue reports is not torn, though it is read after the mutex has
  -- been released. Any threads, each with one call, start on a valid pool, and their steps and
  -- those of other processes alternate in any way. If a thread has returned with a dequeued frame
  -- and no call that releases this frame has begun, there is an order of the calls that have taken
  -- effect, which leads to the pool and to the replies, in which the thread's call, made in one
  -- piece, answers exactly this: the same frame, slot and pose. This order only grows as the
  -- threads go on.
  pub play-pose :
      (p : Pool) (w : k.World) (es es' : List (Event k)) (i : ℕ) (d : Dequeue)
      → IsValid p
      → (play k es (start k calls p w)).thread i ≡ done (frame (ok d))
      → ((j : ℕ)
          → calls j ≡ Call.release d.seq
          → (play k es (start k calls p w)).thread j ≡ program k (calls j))
      → let s = play k es (start k calls p w) in
        (ts new : Order) × Serialised k calls p s ts
        × Serialised k calls p (play k es' s) (new ++ ts)
        × (answer i ts ≡ some (frame (ok d)))
  play-pose p w es es' i d v e idle =
      let s = play k es (start k calls p w) in
      let (ts, f) = start-Follows k calls p w es in
      let (new, g) = play-Follows k calls p es' s ts f in
      let (_, out) =
        Owns-IsOutside k calls p s.owner ts f.reached s.pool s.thread i _ f.owns e (λ z. z) in
      (
        ts,
        new,
        Follows-Serialised k calls p s ts f,
        Follows-Serialised k calls p (play k es' s) (new ++ ts) g,
        IsOutside-answer p s.owner ts i d v
            (λ j c.
              waits_outside p s.owner ts f.reached s.pool s.thread j d.seq f.owns
                (idle j c ∙ ap (program k) c))
            out,
      )
