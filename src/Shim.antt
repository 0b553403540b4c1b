-- ===== src/Shim.antt =====
-- shim/vcam_shim_kernel.h: the dma-buf registry of the offline harness. A static array is a function
-- of the index. A `struct dma_buf *` is the index of its entry of `scratch`: every pointer that
-- `dma_buf_get` returns points to an entry whose `fd` is that index.
pub mod Counts
pub mod Pointers
use vcam_kmod.Base.{ℕ, ◌+◌, ◌-◌, ◌%◌, ◌^◌, Bool, ◌||◌, ◌&&◌, ltb, leb, ◌==◌, if◌then◌else◌}
use vcam_kmod.Base.Int.{ℤ, pos, pos_part, ltb_ℤ, leb_ℤ}
use vcam_kmod.Kernel.{Result, ok, err, einval, enoent}

abbrev pub max_dma_bufs : ℕ
max_dma_bufs = 64

pub record FdState : Type 0 where
  pub size : ℕ
  pub refcnt : ℕ
  pub peak : ℕ

abbrev pub Fds : Type 0
Fds = ℕ → FdState

abbrev pub update : Fds → ℕ → FdState → Fds
update fds i s j = if i == j then s else fds j

abbrev pub out_of_table : ℤ → Bool
out_of_table fd = ltb_ℤ fd (pos 0) || leb_ℤ (pos max_dma_bufs) fd

unfoldable pub register_fd : ℤ → ℕ → Fds → Fds
register_fd fd size fds =
    if out_of_table fd
    then fds
    else update fds (pos_part fd) (record { size = size; refcnt = 0; peak = 0 })

-- `refcnt++` on an `unsigned`, and the peak.
abbrev pub counted : FdState → FdState
counted s =
    let refcnt = (s.refcnt + 1) % 2 ^ 32 in
    record s { refcnt = refcnt; peak = if ltb s.peak refcnt then refcnt else s.peak }

unfoldable pub dma_buf_get : ℤ → Fds → Result ℕ × Fds
dma_buf_get fd fds =
    if out_of_table fd
    then (err einval, fds)
    else if (fds (pos_part fd)).size == 0
    then (err enoent, fds)
    else (ok (pos_part fd), update fds (pos_part fd) (counted (fds (pos_part fd))))

unfoldable pub dma_buf_put : ℕ → Fds → Fds
dma_buf_put b fds =
    if ltb b max_dma_bufs && ltb 0 (fds b).refcnt
    then update fds b (record (fds b) { refcnt = (fds b).refcnt - 1 })
    else fds

unfoldable pub fd_refcnt : ℕ → Fds → ℕ
fd_refcnt b fds = if leb max_dma_bufs b then 0 else (fds b).refcnt
