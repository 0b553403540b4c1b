-- ===== src/Ctl/Alloc.antt =====
-- tools/vcamctl.c: `alloc_buffer`, from the DMA heap or from a memfd.
use vcam_kmod.Base.{ℕ, Bool, true, false, Option, none, some}
use vcam_kmod.Process.{Os, heap_system, Allocated}

module _ (os : Os) where
  -- The mapping of a buffer, or its end.
  unfoldable pub map_or_close : ℕ → Option ℕ × os.World → Allocated os
  map_or_close fd (none, w) = (none, os.close fd w)
  map_or_close fd (some map, w) = (some (fd, map), w)

  -- `heap` has been asked for a buffer.
  unfoldable pub heap_allocated : (size heap : ℕ) → Option ℕ × os.World → Allocated os
  unfolding map_or_close
  heap_allocated size heap (none, w) = (none, os.close heap w)
  heap_allocated size heap (some fd, w) = map_or_close fd (os.mmap size fd (os.close heap w))

  unfoldable pub heap_opened : (size : ℕ) → Option ℕ × os.World → Allocated os
  unfolding heap_allocated
  heap_opened size (none, w) = (none, w)
  heap_opened size (some heap, w) = heap_allocated size heap (os.heap_alloc heap size w)

  -- With VCAM_USE_DMA_HEAP, or on Android.
  unfoldable pub alloc_heap_buffer : (size : ℕ) → os.World → Allocated os
  unfolding heap_opened
  alloc_heap_buffer size w = heap_opened size (os.open_file heap_system w)

  unfoldable pub memfd_sized : (size fd : ℕ) → Bool × os.World → Allocated os
  unfolding map_or_close
  memfd_sized size fd (false, w) = (none, os.close fd w)
  memfd_sized size fd (true, w) = map_or_close fd (os.mmap size fd w)

  unfoldable pub memfd_created : (size : ℕ) → Option ℕ × os.World → Allocated os
  unfolding memfd_sized
  memfd_created size (none, w) = (none, w)
  memfd_created size (some fd, w) = memfd_sized size fd (os.ftruncate fd size w)

  unfoldable pub alloc_memfd_buffer : (size : ℕ) → os.World → Allocated os
  unfolding memfd_created
  alloc_memfd_buffer size w = memfd_created size (os.memfd_create w)
