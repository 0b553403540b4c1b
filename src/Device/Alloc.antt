-- ===== src/Device/Alloc.antt =====
-- tools/vcam_selftest.c: `alloc_dmabuf`, which tries one DMA heap after the other.
use vcam_kmod.Base.{ℕ, Option, none, some, List, [], ◌∷◌}
use vcam_kmod.Process.{
  Os, FilePath, heap_system, heap_system_uncached, heap_mtk_mm, heap_mtk_prot_region,
  heap_mtk_2d_fr_region, Allocated,
}

abbrev pub heap_paths : List FilePath
heap_paths =
    heap_system ∷ heap_system_uncached ∷ heap_mtk_mm ∷ heap_mtk_prot_region ∷ heap_mtk_2d_fr_region
    ∷ []

module _ (os : Os) (size : ℕ) where
  -- The code that `continue` goes on with.
  abbrev pub Rest : Type 0
  Rest = os.World → Allocated os

  unfoldable pub mapped : ℕ → Option ℕ × os.World → Rest → Allocated os
  mapped fd (none, w) rest = rest (os.close fd w)
  mapped fd (some map, w) rest = (some (fd, map), w)

  unfoldable pub allocated : (heap : ℕ) → Option ℕ × os.World → Rest → Allocated os
  unfolding mapped
  allocated heap (none, w) rest = rest (os.close heap w)
  allocated heap (some fd, w) rest = mapped fd (os.mmap size fd (os.close heap w)) rest

  unfoldable pub opened : Option ℕ × os.World → Rest → Allocated os
  unfolding allocated
  opened (none, w) rest = rest w
  opened (some heap, w) rest = allocated heap (os.heap_alloc heap size w) rest

  -- The loop over the heaps.
  unfoldable pub try_heaps : List FilePath → Rest
  unfolding opened
  try_heaps [] w = (none, w)
  try_heaps (p ∷ ps) w = opened (os.open_file p w) (try_heaps ps)

  unfoldable pub alloc_dmabuf : os.World → Allocated os
  unfolding try_heaps
  alloc_dmabuf = try_heaps heap_paths
