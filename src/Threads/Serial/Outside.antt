-- ===== src/Threads/Serial/Outside.antt =====
-- Steps of a thread that does not hold the mutex of src/vcam_pool.c.
use vcam_kmod.Base.{
  ℕ, ◌≡◌, ◌≢◌, inl, inr, Option, none, some, [], ◌++◌, ◌==◌, arith, ap, sym, subst, Bool-cases,
}
use vcam_kmod.Kernel.{Kernel}
use vcam_kmod.Pool.State.{Pool, slot_at}
use vcam_kmod.Pool.Step.{Call}
use vcam_kmod.Threads.Prog.{done, lock, unlock, read, write, service}
use vcam_kmod.Threads.Calls.{Thread}
use vcam_kmod.Threads.Discipline.{Inside}
use vcam_kmod.Threads.System.{System, update, advance}
use vcam_kmod.Threads.Serial.Shown.{Owns-Shows}
use vcam_kmod.Threads.Serial.Defs.{Order, IsOutside, Owns, Follows}

pub update_same : {A : Type 0} (f : ℕ → A) (i : ℕ) (a : A) → update f i a i ≡ a
update_same f i a = ground arith

pub update_other : {A : Type 0} (f : ℕ → A) (i j : ℕ) (a : A) → i ≢ j → update f i a j ≡ f j
update_other f i j a n = ground arith

module _ (k : Kernel) (calls : ℕ → Call) (p0 : Pool) where
  -- What follows from a move: the order stays, or grows by new calls at its head.
  abbrev pub Next : System k → Order → Type 0
  Next s ts = (new : Order) × Follows k calls p0 s.owner s.pool s.thread (new ++ ts)

  -- One thread, outside, goes on to `t`, outside.
  update-IsOutside :
      (o : Option ℕ) (th : ℕ → Thread k) (ts : Order) (i j : ℕ) (t : Thread k)
      → IsOutside k calls p0 o i ts t
      → IsOutside k calls p0 o j ts (th j)
      → IsOutside k calls p0 o j ts (update th i t j)
  update-IsOutside o th ts i j t a b = elim (Bool-cases (i == j)) [
    | inl e ↦ rw e (subst (λ x. IsOutside k calls p0 o x ts t) (ground arith) a)
    | inr e ↦ rw e b
  ]

  update-Owns :
      (o : Option ℕ) (ts : Order) (q p : Pool) (th : ℕ → Thread k) (i : ℕ) (t : Thread k)
      → o ≢ some i
      → IsOutside k calls p0 o i ts t
      → Owns k calls p0 o ts q p th
      → Owns k calls p0 o ts q p (update th i t)
  update-Owns none ts q p th i t n a (e, h) = (e, λ j. update-IsOutside none th ts i j t a (h j))
  update-Owns (some o) ts q p th i t n a (fresh, inside, h, g) = (
    fresh,
    rw (update_other th i o t (λ e. n (ap some (sym e)))) inside,
    λ j m. update-IsOutside (some o) th ts i j t a (h j m),
    g,
  )

  -- The others stay outside when a thread gets the mutex.
  lock-IsOutside :
      (ts : Order) (i j : ℕ) (t : Thread k)
      → IsOutside k calls p0 none j ts t
      → IsOutside k calls p0 (some i) j ts t
  lock-IsOutside ts i j t (inl a) = inl a
  lock-IsOutside ts i j t (inr (r, e, b, x)) =
      inr (r, e, b, λ v u. x v (λ d f l c. ((u d f l c).0, λ z. ground arith)))

  -- A move of a thread that does not hold the mutex.
  pub IsOutside-Follows :
      (t : Thread k) (i : ℕ) (o : Option ℕ) (p : Pool) (w : k.World) (th : ℕ → Thread k)
      (ts : Order)
      → o ≢ some i
      → IsOutside k calls p0 o i ts t
      → Follows k calls p0 o p th ts
      → Next (advance k t i (record { pool = p; owner = o; world = w; thread = th })) ts
  unfolding advance
  IsOutside-Follows (done r) i o p w th ts n a f = ([], f)
  IsOutside-Follows (lock t) i (some o) p w th ts n a f = ([], f)
  IsOutside-Follows (lock t) i none p w th ts n (inl (fresh, b)) f =
      let inside : Inside k (calls i) f.reached p (update th i t i) =
        rw (update_same th i t) (subst (λ q. Inside k (calls i) q p t) f.owns.0 (b p)) in
      (
        [],
        record {
          reached = f.reached;
          serial = f.serial;
          owns = (
            fresh,
            inside,
            λ j m. rw (update_other th i j t m) (lock-IsOutside ts i j (th j) (f.owns.1 j)),
            λ _ j _ _. ap (λ x. slot_at x.slot j) f.owns.0,
          );
        },
      )
  IsOutside-Follows (lock t) i none p w th ts n (inr (r, e, b, x)) f = absurd b
  IsOutside-Follows (unlock t) i o p w th ts n (inl (fresh, b)) f = absurd b
  IsOutside-Follows (unlock t) i o p w th ts n (inr (r, e, b, x)) f = absurd b
  IsOutside-Follows (read g) i o p w th ts n (inl (fresh, b)) f = absurd b
  IsOutside-Follows (read g) i o p w th ts n (inr (r, e, b, x)) f = (
    [],
    record {
      reached = f.reached;
      serial = f.serial;
      owns =
          update-Owns o ts _ p th i _ n
            (inr (
              r,
              e,
              b p,
              λ v u. x v u p (Owns-Shows k calls p0 v o ts _ p th f.serial f.owns i r e u),
            ))
            f.owns;
    },
  )
  IsOutside-Follows (write q t) i o p w th ts n (inl (fresh, b)) f = absurd b
  IsOutside-Follows (write q t) i o p w th ts n (inr (r, e, b, x)) f = absurd b
  IsOutside-Follows (service h g) i o p w th ts n (inl (fresh, b)) f = (
    [],
    record {
      reached = f.reached;
      serial = f.serial;
      owns = update-Owns o ts _ p th i _ n (inl (fresh, b w)) f.owns;
    },
  )
  IsOutside-Follows (service h g) i o p w th ts n (inr (r, e, b, x)) f = (
    [],
    record {
      reached = f.reached;
      serial = f.serial;
      owns = update-Owns o ts _ p th i _ n (inr (r, e, b w, λ v u. x v u w)) f.owns;
    },
  )
