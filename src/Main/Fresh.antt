-- ===== src/Main/Fresh.antt =====
-- The pool that src/vcam_main.c leaves when it has been loaded, on the buffers of
-- shim/vcam_shim_kernel.h.
use vcam_kmod.Base.{
  ℕ, zero, suc, ◌-◌, ◌<◌, ◌≡◌, refl, subst, arith, inl, inr, not, ◌&&◌, Bool-cases, true, false,
  Bool, some, Option, ◌||◌, ltb, ◌==◌,
}
use vcam_kmod.Base.Int.{pos, ltb_ℤ}
use vcam_kmod.Kernel.{Kernel, ok}
use vcam_kmod.Uapi.{Struct, Val, Format}
use vcam_kmod.Logic.Format.{format_validate}
use vcam_kmod.Pool.State.{Pool, init, zero_pool, backend_bridge, backend_pipeline, max_slots}
use vcam_kmod.Pool.Producer.{register, bind_slot, find_unbound}
use vcam_kmod.Pool.Control.{set_backend}
use vcam_kmod.Main.Module.{Module, want, vcam_init, init_registered}
use vcam_kmod.Main.Lifetime.{want_in, vcam_init-registered}
use vcam_kmod.Shim.{Fds, dma_buf_get, update, counted}
use vcam_kmod.Shim.Counts.{shim}

-- The pool that has just been set up, with a backend.
abbrev pub fresh : Pool → (nslots : ℕ) (backend : ℕ) → Pool
fresh p n b = record ((init p n).1) { backend = b }

pub nonneg : (d : ℕ) → ltb_ℤ (pos d) (pos 0) ≡ false
nonneg d = ground arith

got :
    (d : ℕ) (fds : Fds)
    → d < 64
    → 0 < (fds d).size
    → dma_buf_get (pos d) fds ≡ (ok d, update fds d (counted (fds d)))
unfolding dma_buf_get
got d fds low sized = ground arith

-- The registration succeeds on a pool with a free slot 0.
module _ (M : Type 0) (load : (s : Struct) → ℕ → M → Option (Val s))
    (store : (s : Struct) → ℕ → Val s → M → Bool × M) where
  pub register-fresh :
      (p : Pool) (d : ℕ) (fmt : Format) (fds : Fds) (v : M)
      → d < 64
      → 0 < (fds d).size
      → format_validate fmt ≡ ok tt
      → find_unbound p.nslots 0 p.slot ≡ some 0
      → register (shim M load store (ok tt)) p (pos d) fmt (fds, v)
        ≡ (ok 0, bind_slot p 0 d (pos d) fmt, (update fds d (counted (fds d)), v))
  unfolding register
  register-fresh p d fmt fds v low sized valid free =
      rw (nonneg d, valid, got d fds low sized, free) refl

init-free :
    (p : Pool) (n : ℕ)
    → n < max_slots
    → ((init p (suc n)).1.slot ≡ zero_pool.slot) × ((init p (suc n)).1.nslots ≡ suc n)
unfolding init
init-free p n h =
    let good : (suc n == 0 || ltb max_slots (suc n)) ≡ false = ground arith in rw good (refl, refl)

pub fresh-free :
    (p : Pool) (n b : ℕ)
    → n < max_slots
    → find_unbound (fresh p (suc n) b).nslots 0 (fresh p (suc n) b).slot ≡ some 0
unfolding find_unbound
fresh-free p n b h = let (slots, count) = init-free p n h in rw (find_unbound, slots, count) refl

set_backend-fresh : (p : Pool) (n b : ℕ) → (c : ℕ) × ((set_backend (init p n).1 b).1 ≡ fresh p n c)
unfolding set_backend
set_backend-fresh p n b =
    elim (Bool-cases (not (b == backend_bridge) && not (b == backend_pipeline))) [
      | inl e ↦ ((init p n).1.backend, rw e refl)
      | inr e ↦ (b, rw e refl)
    ]

-- What a loaded module has: a fresh pool of 1 to 8 slots.
pub vcam_init-fresh :
    (k : Kernel) (m : Module) (w w1 : k.World)
    → k.misc_register w ≡ (ok tt, w1)
    → (n : ℕ) × (c : ℕ) × (n < max_slots)
      × (vcam_init k m w
          ≡ (ok tt, record m { pool = fresh m.pool (suc n) c; pool_ready = true }, w1))
unfolding init_registered
vcam_init-fresh k m w w1 e =
    let (lo, hi) = want_in m.slots in
    let (c, chosen) = set_backend-fresh m.pool (want m.slots) m.backend in
    let counted_slots : want m.slots ≡ suc (want m.slots - 1) = omega (arith, lo) in
    (
      want m.slots - 1,
      c,
      omega (arith, lo, hi),
      subst
          (λ n.
            vcam_init k m w ≡ (ok tt, record m { pool = fresh m.pool n c; pool_ready = true }, w1))
          counted_slots (rw (vcam_init-registered k m w, e, chosen) refl),
    )

-- A statement on each number of slots.
pub by_slots :
    (P : ℕ → Type 0) → P 0 → P 1 → P 2 → P 3 → P 4 → P 5 → P 6 → P 7 → (n : ℕ) → n < max_slots → P n
by_slots P a b c d e f g h zero l = a
by_slots P a b c d e f g h (suc zero) l = b
by_slots P a b c d e f g h (suc (suc zero)) l = c
by_slots P a b c d e f g h (suc (suc (suc zero))) l = d
by_slots P a b c d e f g h (suc (suc (suc (suc zero)))) l = e
by_slots P a b c d e f g h (suc (suc (suc (suc (suc zero))))) l = f
by_slots P a b c d e f g h (suc (suc (suc (suc (suc (suc zero)))))) l = g
by_slots P a b c d e f g h (suc (suc (suc (suc (suc (suc (suc zero))))))) l = h
by_slots P a b c d e f g h (suc (suc (suc (suc (suc (suc (suc (suc n)))))))) l =
    absurd (omega arith)
