-- ===== src/Kernel.antt =====
-- The kernel below the module: errno values, and the services that the sources call and that are
-- not part of this repository (dma-buf references, user memory, misc devices), as an interface.
use vcam_kmod.Base.{ℕ, ◌+◌, ◌<◌, ◌≡◌, Bool, Option, if◌then◌else◌, ◌==◌}
use vcam_kmod.Base.Int.{ℤ}
use vcam_kmod.Uapi.{Struct, Val}

-- The errors that the sources return, negated in C. `os` stands for a code that the kernel hands
-- on through an error pointer or a return value.
pub data Errno : Type 0 where
  einval ebusy enoent eagain esrch efault enodev enotty : Errno
  os : ℕ → Errno

pub data Result {ℓ} (A : Type ℓ) : Type ℓ where
  ok : A → Result A
  err : Errno → Result A

-- A `struct dma_buf *` that is not NULL is the number of the buffer. `World` is the rest of the
-- machine: the descriptor tables, the reference counts, the memory of the calling process.
pub record Kernel : Type 1 where
  pub World : Type 0
  -- The buffer behind a descriptor of the calling process, with one more reference, or an error.
  pub dma_buf_get : ℤ → World → Result ℕ × World
  pub dma_buf_put : ℕ → World → World
  -- A typed read or write of user memory at an address; `none` and `false` are a fault.
  pub copy_from_user : (s : Struct) → ℕ → World → Option (Val s)
  pub copy_to_user : (s : Struct) → ℕ → Val s → World → Bool × World
  pub misc_register : World → Result (Unit {0}) × World
  pub misc_deregister : World → World
  -- The references held on a buffer.
  pub refs : ℕ → World → ℕ

-- One at `b`, none elsewhere.
abbrev pub one_at : ℕ → ℕ → ℕ
one_at b c = if b == c then 1 else 0

-- What the module relies on: each service counts references as documented. A count is only said
-- to rise while it is below the limit of its counter.
pub record CountsRefs (k : Kernel) (limit : ℕ) : Type 0 where
  pub get_ok :
      (fd : ℤ) (w : k.World) {b : ℕ} {w' : k.World} (c : ℕ)
      → k.dma_buf_get fd w ≡ (ok b, w')
      → k.refs b w < limit
      → k.refs c w' ≡ k.refs c w + one_at b c
  pub get_err :
      (fd : ℤ) (w : k.World) {e : Errno} {w' : k.World} (c : ℕ)
      → k.dma_buf_get fd w ≡ (err e, w')
      → k.refs c w' ≡ k.refs c w
  pub put :
      (b : ℕ) (w : k.World) (c : ℕ)
      → 0 < k.refs b w
      → k.refs c (k.dma_buf_put b w) + one_at b c ≡ k.refs c w
  pub copy_out :
      (s : Struct) (addr : ℕ) (v : Val s) (w : k.World) (c : ℕ)
      → k.refs c (k.copy_to_user s addr v w).1 ≡ k.refs c w
  pub register : (w : k.World) (c : ℕ) → k.refs c (k.misc_register w).1 ≡ k.refs c w
  pub deregister : (w : k.World) (c : ℕ) → k.refs c (k.misc_deregister w) ≡ k.refs c w
