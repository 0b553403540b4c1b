-- ===== src/Threads/Refs/Steps.antt =====
-- A step of a thread that calls src/vcam_pool.c, and the references of all threads.
use vcam_kmod.Base.{
  ℕ, ◌≡◌, ◌≢◌, ◌<◌, inl, inr, Option, none, some, arith, refl, sym, subst, ℕ_discrete,
}
use vcam_kmod.Kernel.{Kernel}
use vcam_kmod.Pool.State.{Pool}
use vcam_kmod.Pool.Invariant.Defs.{IsValid}
use vcam_kmod.Threads.Prog.{done, lock, unlock, read, write, service}
use vcam_kmod.Threads.Calls.{Thread}
use vcam_kmod.Threads.System.{advance}
use vcam_kmod.Threads.Refs.Defs.{Holding, Fits, Locked, Holds}
use vcam_kmod.Threads.Refs.Balance.{
  Balances, Ledger, Kept, update-Ledger, holding-le, lock-Ledger, unlock-Ledger, inside-Ledger,
}

module _ (k : Kernel) (limit : ℕ) (base : Holding) (n : ℕ) (i : ℕ) (low : i < n) where
  -- A step of a thread that does not hold the mutex.
  outside-Kept :
      (t : Thread k) (o : Option ℕ) (p : Pool) (w : k.World) (th : ℕ → Thread k) (c : ℕ → Holding)
      → o ≢ some i
      → (o ≡ none → IsValid p)
      → ((b : ℕ) → k.refs b w < limit)
      → Holds k limit (c i) t
      → Ledger k limit base n o p w th c
      → Kept k limit base n (advance k t i (record { pool = p; owner = o; world = w; thread = th }))
  unfolding advance
  outside-Kept (done r) o p w th c out v room a l = (c, l)
  outside-Kept (lock t) (some o) p w th c out v room a l = (c, l)
  outside-Kept (lock t) none p w th c out v room (inl a) l =
      (_, lock-Ledger k limit base n p w th c i t low (a p (v refl)) l)
  outside-Kept (lock t) none p w th c out v room (inr a) l = absurd a
  outside-Kept (unlock t) o p w th c out v room (inl a) l = absurd a
  outside-Kept (unlock t) o p w th c out v room (inr a) l = absurd a
  outside-Kept (read f) o p w th c out v room (inl a) l = absurd a
  outside-Kept (read f) o p w th c out v room (inr a) l =
      (_, update-Ledger k limit base n o p w w th c i (f p) (c i) low out (inr (a p)) (λ b. refl) l)
  outside-Kept (write q t) o p w th c out v room (inl a) l = absurd a
  outside-Kept (write q t) o p w th c out v room (inr a) l = absurd a
  outside-Kept (service e f) o p w th c out v room (inl a) l =
      let fits : Fits k limit (c i) w = record {
        room = room;
        real = holding-le k limit base n o p w th c i low l;
      } in
      let (m, moved, b) = a w fits in
      (_, update-Ledger k limit base n o p w (e w) th c i (f w) m low out (inl b) moved l)
  outside-Kept (service e f) o p w th c out v room (inr a) l =
      let fits : Fits k limit (c i) w = record {
        room = room;
        real = holding-le k limit base n o p w th c i low l;
      } in
      let (m, moved, b) = a w fits in
      (_, update-Ledger k limit base n o p w (e w) th c i (f w) m low out (inr b) moved l)

  -- A step of the thread that holds it.
  inside-Kept :
      (t : Thread k) (p : Pool) (w : k.World) (th : ℕ → Thread k) (c : ℕ → Holding) (m : Holding)
      → ((b : ℕ) → k.refs b w < limit)
      → Locked k limit m p t
      → Balances k limit base n m c w
      → ((b : ℕ) → c i b ≡ 0)
      → ((j : ℕ) → i ≢ j → Holds k limit (c j) (th j))
      → Kept k limit base n
          (advance k t i (record { pool = p; owner = some i; world = w; thread = th }))
  unfolding advance
  inside-Kept (done r) p w th c m room a s z each = absurd a
  inside-Kept (lock t) p w th c m room a s z each = absurd a
  inside-Kept (unlock t) p w th c m room (r, split, a) s z each =
      (_, unlock-Ledger k limit base n p w th c i t m r low s z each split a)
  inside-Kept (read f) p w th c m room a s z each =
      (c, inside-Ledger k limit base n p p w w th c i (f p) m m s z each (λ b. refl) a)
  inside-Kept (write q t) p w th c m room a s z each =
      (c, inside-Ledger k limit base n p q w w th c i t m m s z each (λ b. refl) a)
  inside-Kept (service e f) p w th c m room a s z each =
      let (m', moved, a') = a w (record { room = room; real = λ b. omega (arith, s b) }) in
      (c, inside-Ledger k limit base n p p w (e w) th c i (f w) m m' s z each moved a')

  pub advance-Kept :
      (o : Option ℕ) (p : Pool) (w : k.World) (th : ℕ → Thread k) (c : ℕ → Holding)
      → (o ≡ none → IsValid p)
      → ((b : ℕ) → k.refs b w < limit)
      → Ledger k limit base n o p w th c
      → Kept k limit base n
          (advance k (th i) i (record { pool = p; owner = o; world = w; thread = th }))
  advance-Kept none p w th c v room l =
      outside-Kept (th i) none p w th c (λ e. ground arith) v room (l.1 i) l
  advance-Kept (some o) p w th c v room l = elim (ℕ_discrete o i) [
    | yes e ↦
        subst
          (λ x.
            Ledger k limit base n (some x) p w th c
            → Kept k limit base n
                (advance k (th i) i (record { pool = p; owner = some x; world = w; thread = th })))
          (sym e) (λ l. inside-Kept (th i) p w th c l.0 room l.2 l.1 l.3 l.4) l
    | no q ↦ outside-Kept (th i) (some o) p w th c (λ e. q (ground arith)) v room (l.4 i q) l
  ]
