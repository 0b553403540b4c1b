-- ===== src/Ctl/Leaks.antt =====
-- The descriptors that `alloc_buffer` of tools/vcamctl.c leaves open.
use vcam_kmod.Base.{ℕ, ◌∙◌, Bool, true, false, Option, none, some}
use vcam_kmod.Process.{Os, heap_system, Opens, CountsFds}
use vcam_kmod.Process.Descriptors.{Leaves, close-Opens, swap-Opens}
use vcam_kmod.Ctl.Alloc.{
  map_or_close, heap_allocated, heap_opened, alloc_heap_buffer, memfd_sized, memfd_created,
  alloc_memfd_buffer,
}

module _ (os : Os) (laws : CountsFds os) where
  map_or_close-Leaves :
      (fd : ℕ) (w w1 : os.World) (r : Option ℕ × os.World)
      → Opens os w (some fd, w1)
      → Opens os w1 (none, r.1)
      → Leaves os w (map_or_close os fd r)
  unfolding map_or_close
  map_or_close-Leaves fd w w1 (none, w2) h m = close-Opens os laws fd w w1 w2 h m
  map_or_close-Leaves fd w w1 (some map, w2) (new, h) m = (new, λ j. m j ∙ h j)

  heap_allocated-Leaves :
      (size heap : ℕ) (w w1 : os.World) (r : Option ℕ × os.World)
      → Opens os w (some heap, w1)
      → Opens os w1 r
      → Leaves os w (heap_allocated os size heap r)
  unfolding heap_allocated
  heap_allocated-Leaves size heap w w1 (none, w2) h m = close-Opens os laws heap w w1 w2 h m
  heap_allocated-Leaves size heap w w1 (some fd, w2) h m =
      map_or_close-Leaves fd w (os.close heap w2) (os.mmap size fd (os.close heap w2))
        (swap-Opens os laws heap fd w w1 w2 h m) (laws.mmap size fd (os.close heap w2))

  heap_opened-Leaves :
      (size : ℕ) (w : os.World) (r : Option ℕ × os.World)
      → Opens os w r
      → Leaves os w (heap_opened os size r)
  unfolding heap_opened
  heap_opened-Leaves size w (none, w1) h = h
  heap_opened-Leaves size w (some heap, w1) h =
      heap_allocated-Leaves size heap w w1 (os.heap_alloc heap size w1) h
        (laws.heap_alloc heap size w1)

  memfd_sized-Leaves :
      (size fd : ℕ) (w w1 : os.World) (r : Bool × os.World)
      → Opens os w (some fd, w1)
      → Opens os w1 (none, r.1)
      → Leaves os w (memfd_sized os size fd r)
  unfolding memfd_sized
  memfd_sized-Leaves size fd w w1 (false, w2) h m = close-Opens os laws fd w w1 w2 h m
  memfd_sized-Leaves size fd w w1 (true, w2) h m =
      map_or_close-Leaves fd w w1 (os.mmap size fd w2) h (λ j. laws.mmap size fd w2 j ∙ m j)

  memfd_created-Leaves :
      (size : ℕ) (w : os.World) (r : Option ℕ × os.World)
      → Opens os w r
      → Leaves os w (memfd_created os size r)
  unfolding memfd_created
  memfd_created-Leaves size w (none, w1) h = h
  memfd_created-Leaves size w (some fd, w1) h =
      memfd_sized-Leaves size fd w w1 (os.ftruncate fd size w1) h (laws.ftruncate fd size w1)

  -- Where the system calls treat descriptors as documented, `alloc_buffer` leaks none, whether it
  -- takes its memory from the DMA heap or from a memfd and whichever of its calls fails: if it
  -- fails, the open descriptors are those before, and if it succeeds, those and the buffer's.
  pub alloc_buffer-Leaves :
      (size : ℕ) (w : os.World)
      → Leaves os w (alloc_heap_buffer os size w) × Leaves os w (alloc_memfd_buffer os size w)
  unfolding alloc_heap_buffer alloc_memfd_buffer
  alloc_buffer-Leaves size w = (
    heap_opened-Leaves size w (os.open_file heap_system w) (laws.open_file heap_system w),
    memfd_created-Leaves size w (os.memfd_create w) (laws.memfd_create w),
  )
