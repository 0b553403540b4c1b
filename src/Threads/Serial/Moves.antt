-- ===== src/Threads/Serial/Moves.antt =====
-- Steps of threads that share the pool of src/vcam_pool.c.
use vcam_kmod.Base.{
  ℕ, ◌≢◌, inl, inr, Option, none, some, List, [], ◌∷◌, ◌++◌, arith, refl, sym, subst, ℕ_discrete,
}
use mathlib.Core.List.{append_assoc}
use vcam_kmod.Kernel.{Kernel}
use vcam_kmod.Pool.State.{Pool}
use vcam_kmod.Pool.Step.{Call, Reply}
use vcam_kmod.Threads.Prog.{done, lock, unlock, read, write, service}
use vcam_kmod.Threads.Calls.{Thread}
use vcam_kmod.Threads.Discipline.{After, Exactly, Inside, Guarded}
use vcam_kmod.Threads.System.{System, Event, moves, disturbs, update, advance, move, play}
use vcam_kmod.Threads.Serial.Shown.{answer_before}
use vcam_kmod.Threads.Serial.Defs.{Order, then_call, IsOutside, Owns, Follows}
use vcam_kmod.Threads.Serial.Outside.{update_same, update_other, Next, IsOutside-Follows}

module _ (k : Kernel) (calls : ℕ → Call) (p0 : Pool) where
  -- The thread that holds the mutex goes on inside.
  update-Inside :
      (ts : Order) (q p p' : Pool) (th : ℕ → Thread k) (i : ℕ) (t : Thread k)
      → Inside k (calls i) q p' t
      → (Guarded (calls i) q p → Guarded (calls i) q p')
      → Owns k calls p0 (some i) ts q p th
      → Owns k calls p0 (some i) ts q p' (update th i t)
  update-Inside ts q p p' th i t a g (fresh, _, h, guard) =
      (fresh, rw (update_same th i t) a, λ j m. rw (update_other th i j t m) (h j m), g guard)

  -- The others stay outside when a call takes effect.
  answered-IsOutside :
      (ts : Order) (i j : ℕ) (r : Reply) (t : Thread k)
      → i ≢ j
      → IsOutside k calls p0 (some i) j ts t
      → IsOutside k calls p0 none j ((i, r) ∷ ts) t
  answered-IsOutside ts i j r t n (inl (fresh, b)) = inl (ground arith, b)
  answered-IsOutside ts i j r t n (inr (r', found, b, x)) = inr (
    r',
    ground arith,
    b,
    λ v u. x v (λ d f l c.
        let none_yet = (u d f l c).0 in (answer_before i l r ts none_yet, λ same. ground arith)),
  )

  unlock-Owns :
      (ts : Order) (q p : Pool) (th : ℕ → Thread k) (i : ℕ) (t : Thread k) (r : Reply)
      → After k (calls i) r t
      → Exactly k (calls i) r t
      → Owns k calls p0 (some i) ts q p th
      → Owns k calls p0 none ((i, r) ∷ ts) p p (update th i t)
  unlock-Owns ts q p th i t r a x (_, _, h, _) = (refl, each)
    where
      each : (j : ℕ) → IsOutside k calls p0 none j ((i, r) ∷ ts) (update th i t j)
      each j = elim (ℕ_discrete i j) [
        | yes e ↦
            subst (λ x. IsOutside k calls p0 none x ((i, r) ∷ ts) (update th i t x)) e
              (inr (r, ground arith, rw (update_same th i t) a, λ _ _. rw (update_same th i t) x))
        | no m ↦ rw (update_other th i j t m) (answered-IsOutside ts i j r (th j) m (h j m))
      ]

  Inside-Follows :
      (t : Thread k) (i : ℕ) (p : Pool) (w : k.World) (th : ℕ → Thread k) (ts : Order)
      (f : Follows k calls p0 (some i) p th ts)
      → Inside k (calls i) f.reached p t
      → Next k calls p0
          (advance k t i (record { pool = p; owner = some i; world = w; thread = th }))
          ts
  unfolding advance
  Inside-Follows (done r) i p w th ts f a = absurd a
  Inside-Follows (lock t) i p w th ts f a = absurd a
  Inside-Follows (unlock t) i p w th ts f (r, d, b, x) = (
    (i, r) ∷ [],
    record {
      reached = p;
      serial = then_call i r f.serial f.owns.0 d;
      owns = unlock-Owns ts f.reached p th i t r b x f.owns;
    },
  )
  Inside-Follows (read g) i p w th ts f a = (
    [],
    record {
      reached = f.reached;
      serial = f.serial;
      owns = update-Inside ts _ p p th i _ a (λ g. g) f.owns;
    },
  )
  Inside-Follows (write q t) i p w th ts f a = (
    [],
    record {
      reached = f.reached;
      serial = f.serial;
      owns = update-Inside ts _ p q th i _ a.1 (λ _. a.0) f.owns;
    },
  )
  Inside-Follows (service h g) i p w th ts f a = (
    [],
    record {
      reached = f.reached;
      serial = f.serial;
      owns = update-Inside ts _ p p th i _ (a w) (λ g. g) f.owns;
    },
  )

  move-Follows :
      (o : Option ℕ) (i : ℕ) (p : Pool) (w : k.World) (th : ℕ → Thread k) (ts : Order)
      → Follows k calls p0 o p th ts
      → Next k calls p0
          (advance k (th i) i (record { pool = p; owner = o; world = w; thread = th }))
          ts
  move-Follows none i p w th ts f =
      IsOutside-Follows k calls p0 (th i) i none p w th ts (λ e. ground arith) (f.owns.1 i) f
  move-Follows (some o) i p w th ts f = elim (ℕ_discrete o i) [
    | yes e ↦
        subst
          (λ j.
            Next k calls p0
              (advance k (th j) j (record { pool = p; owner = some o; world = w; thread = th })) ts)
          e (Inside-Follows (th o) o p w th ts f f.owns.1)
    | no m ↦
        IsOutside-Follows k calls p0 (th i) i (some o) p w th ts (λ e. m (ground arith))
          (f.owns.2 i m) f
  ]

  pub play-Follows :
      (es : List (Event k)) (s : System k) (ts : Order)
      → Follows k calls p0 s.owner s.pool s.thread ts
      → Next k calls p0 (play k es s) ts
  unfolding play move
  play-Follows [] s ts f = ([], f)
  play-Follows (disturbs w ∷ es) s ts f = play-Follows es (record s { world = w }) ts f
  play-Follows (moves i ∷ es) s ts f =
      let (new, g) = move-Follows s.owner i s.pool s.world s.thread ts f in
      let t = advance k (s.thread i) i s in
      let u = play k es t in
      let (newer, h) = play-Follows es t (new ++ ts) g in
      (
        newer ++ new,
        subst (Follows k calls p0 u.owner u.pool u.thread) (sym (append_assoc newer new ts)) h,
      )
