-- ===== src/Shim/Counts.antt =====
-- The registry of shim/vcam_shim_kernel.h as a kernel, and its reference counts.
use vcam_kmod.Base.{ℕ, ◌+◌, ◌-◌, ◌<◌, ◌≡◌, ◌^◌, Bool, Option, refl, ap, arith}
use vcam_kmod.Base.Int.{ℤ}
use vcam_kmod.Uapi.{Struct, Val}
use vcam_kmod.Kernel.{Kernel, CountsRefs, Result, Errno, ok, err, one_at}
use vcam_kmod.Shim.{Fds, dma_buf_get, dma_buf_put, fd_refcnt}

got_counts :
    (fd : ℤ) (fds : Fds) {b : ℕ} {fds' : Fds} (c : ℕ)
    → dma_buf_get fd fds ≡ (ok b, fds')
    → fd_refcnt b fds < 2 ^ 32 - 1
    → fd_refcnt c fds' ≡ fd_refcnt c fds + one_at b c
unfolding dma_buf_get fd_refcnt
got_counts fd fds {b} {fds'} c e room = ground arith

put_counts :
    (b : ℕ) (fds : Fds) (c : ℕ)
    → 0 < fd_refcnt b fds
    → fd_refcnt c (dma_buf_put b fds) + one_at b c ≡ fd_refcnt c fds
unfolding dma_buf_put fd_refcnt
put_counts b fds c held = ground arith

got_none :
    (fd : ℤ) (fds : Fds) {e : Errno} {fds' : Fds} (c : ℕ)
    → dma_buf_get fd fds ≡ (err e, fds')
    → fd_refcnt c fds' ≡ fd_refcnt c fds
unfolding dma_buf_get fd_refcnt
got_none fd fds {e} {fds'} c q = ground arith

-- The shim's services, beside a memory `M` of the process and the answer to `misc_register`.
module _ (M : Type 0) (load : (s : Struct) → ℕ → M → Option (Val s))
    (store : (s : Struct) → ℕ → Val s → M → Bool × M) (registers : Result (Unit {0})) where
  abbrev pub shim : Kernel
  shim = record {
    World = Fds × M;
    dma_buf_get = λ fd w. let (r, fds') = dma_buf_get fd w.0 in (r, (fds', w.1));
    dma_buf_put = λ b w. (dma_buf_put b w.0, w.1);
    copy_from_user = λ s arg w. load s arg w.1;
    copy_to_user = λ s arg v w. let (done, m') = store s arg v w.1 in (done, (w.0, m'));
    misc_register = λ w. (registers, w);
    misc_deregister = λ w. w;
    refs = λ b w. fd_refcnt b w.0;
  }

  -- The harness's kernel counts references as the module expects of a kernel, while each count is
  -- below the greatest value of its counter: an accepted get adds one to its buffer's, a refused
  -- one none, a put of a held buffer takes one away, and the other services leave all counts alone.
  pub shim-CountsRefs : CountsRefs shim (2 ^ 32 - 1)
  shim-CountsRefs = record {
    get_ok = λ fd w c e room. got_counts fd w.0 c (ap (λ a. (a.0, a.1.0)) e) room;
    get_err = λ fd w c e. got_none fd w.0 c (ap (λ a. (a.0, a.1.0)) e);
    put = λ b w c held. put_counts b w.0 c held;
    copy_out = λ s addr v w c. refl;
    register = λ w c. refl;
    deregister = λ w c. refl;
  }
