-- ===== src/Main/Lifetime.antt =====
-- src/vcam_main.c: loading, and unloading, with the state and the references that each leaves.
use vcam_kmod.Base.{
  ℕ, ◌+◌, ◌≤◌, ◌<◌, ◌≡◌, refl, ap, ◌∙◌, arith, true, false, ltb, ◌==◌, if◌then◌else◌, ◌||◌, subst,
  sym, ◌⊎◌, inl, inr, dec_lt,
}
use vcam_kmod.Kernel.{Kernel, CountsRefs, Result, ok, err}
use vcam_kmod.Pool.State.{Pool, init, max_slots}
use vcam_kmod.Pool.Control.{set_backend}
use vcam_kmod.Pool.Step.{Call, step}
use vcam_kmod.Pool.Invariant.Defs.{IsValid}
use vcam_kmod.Pool.Safety.{init-IsValid, step-IsValid}
use vcam_kmod.Pool.Refs.Held.{held_refs}
use vcam_kmod.Pool.Refs.Destroy.{destroy-refs}
use vcam_kmod.Main.Module.{Module, want, vcam_init, init_pooled, init_registered, vcam_exit}

pub want_in : (slots : ℕ) → (0 < want slots) × (want slots ≤ max_slots)
want_in slots = ground arith

-- A pool that `vcam_pool_init` has set up holds no buffer.
init-empty :
    (p : Pool) (n : ℕ)
    → 0 < n
    → n ≤ max_slots
    → ((init p n).1.backend ≡ 0)
      × ((init p n).1.nslots ≡ n)
      × ((b : ℕ) → held_refs b (init p n).1.slot ≡ 0)
unfolding init held_refs
init-empty p n lo hi =
    let accepted : (n == 0 || ltb max_slots n) ≡ false = ground arith in
    rw accepted (refl, refl, λ b. refl)

set_backend_lem :
    (p : Pool) (b : ℕ)
    → p.backend ≡ 0
    → ((set_backend p b).1.slot ≡ p.slot)
      × ((set_backend p b).1.nslots ≡ p.nslots)
      × ((set_backend p b).1.backend ≡ (if b == 1 then 1 else 0))
unfolding set_backend
set_backend_lem p b h = ground arith

-- The slots of a pool, by the parameter.
abbrev pub IsAsked : (slots nslots : ℕ) → Type 0
IsAsked slots nslots =
    ((1 ≤ slots) × (slots ≤ 8) × (nslots ≡ slots)) ⊎ (((slots ≡ 0) ⊎ (8 < slots)) × (nslots ≡ 3))

want-IsAsked : (slots : ℕ) → IsAsked slots (want slots)
want-IsAsked slots = elim (dec_lt 8 slots) [
  | yes high ↦ inr (inr high, ground arith)
  | no low ↦ elim (dec_lt 0 slots) [
    | yes some_asked ↦ inl (omega arith, omega arith, ground arith)
    | no none_asked ↦ inr (inl (omega arith), ground arith)
  ]
]

-- The pool of a module that has been loaded.
pub record IsFresh (slots backend : ℕ) (p : Pool) : Type 0 where
  pub valid : IsValid p
  pub nslots : IsAsked slots p.nslots
  pub backend_set : p.backend ≡ (if backend == 1 then 1 else 0)
  pub empty : (b : ℕ) → held_refs b p.slot ≡ 0

module _ (k : Kernel) where
  -- The pool that `vcam_init` makes, before it registers the device.
  abbrev pooled : Module → Pool
  pooled m = (set_backend (init m.pool (want m.slots)).1 m.backend).1

  pooled-IsFresh : (m : Module) → k.World → IsFresh m.slots m.backend (pooled m)
  unfolding step
  pooled-IsFresh m w =
      let (lo, hi) = want_in m.slots in
      let (bridge, count, none_held) = init-empty m.pool (want m.slots) lo hi in
      let (same, nslots, chosen) =
        set_backend_lem (init m.pool (want m.slots)).1 m.backend bridge in
      record {
        valid =
            step-IsValid k (Call.set_backend m.backend) w
              (init-IsValid m.pool (want m.slots) lo hi).1;
        nslots = subst (IsAsked m.slots) (sym (nslots ∙ count)) (want-IsAsked m.slots);
        backend_set = chosen;
        empty = λ b. ap (held_refs b) same ∙ none_held b;
      }

  init_pooled-ok :
      (m : Module) (o : Result (Unit {0}) × Pool) (w : k.World)
      → o.0 ≡ ok tt
      → init_pooled k m o w ≡ init_registered k m (set_backend o.1 m.backend).1 (k.misc_register w)
  unfolding init_pooled
  init_pooled-ok m (ok _, p) w e = refl
  init_pooled-ok m (err _, p) w e = cc

  pub vcam_init-registered :
      (m : Module) (w : k.World)
      → vcam_init k m w ≡ init_registered k m (pooled m) (k.misc_register w)
  unfolding vcam_init
  vcam_init-registered m w =
      let (lo, hi) = want_in m.slots in
      init_pooled-ok m (init m.pool (want m.slots)) w (init-IsValid m.pool (want m.slots) lo hi).0

  -- If the device can be registered, loading succeeds, whatever the two parameters are: the pool is
  -- ready and valid, has as many slots as asked for (3, if that number is not one from 1 to 8), the
  -- backend asked for (the bridge, if that is unknown), and no buffer.
  pub vcam_init-ok :
      (m : Module) (w w1 : k.World)
      → k.misc_register w ≡ (ok tt, w1)
      → let (r, m', w') = vcam_init k m w in
        (r ≡ ok tt) × (m'.pool_ready ≡ true) × IsFresh m.slots m.backend m'.pool × (w' ≡ w1)
  unfolding init_registered
  vcam_init-ok m w w1 e = rw (vcam_init-registered m w, e) (refl, refl, pooled-IsFresh m w, refl)

  module _ {limit : ℕ} (laws : CountsRefs k limit) where
    -- Unloading a module with a valid pool whose references are real makes the pool not ready,
    -- gives back exactly the references that the pool holds, and leaves no buffer in a slot.
    pub vcam_exit-refs :
        (m : Module) (w : k.World)
        → IsValid m.pool
        → ((b : ℕ) → held_refs b m.pool.slot ≤ k.refs b w)
        → let (m', w') = vcam_exit k m w in
          (m'.pool_ready ≡ false)
          × ((b : ℕ) → k.refs b w' + held_refs b m.pool.slot ≡ k.refs b w)
          × ((b : ℕ) → held_refs b m'.pool.slot ≡ 0)
    unfolding vcam_exit
    vcam_exit-refs m w v real =
        let w1 = k.misc_deregister w in
        let torn =
          destroy-refs k laws m.pool w1 v (λ b. omega (arith, real b, laws.deregister w b)) in
        (refl, λ b. omega (arith, torn b, laws.deregister w b), λ b. (torn b).1)
