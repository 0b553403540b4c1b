-- ===== src/Device/Leaks.antt =====
-- The descriptors that `alloc_dmabuf` of tools/vcam_selftest.c leaves open.
use vcam_kmod.Base.{ℕ, ◌∙◌, Option, none, some, List, [], ◌∷◌, arith, refl}
use vcam_kmod.Process.{Os, FilePath, Opens, CountsFds, Allocated}
use vcam_kmod.Process.Descriptors.{Leaves, close-Opens, swap-Opens}
use vcam_kmod.Device.Alloc.{Rest, mapped, allocated, opened, try_heaps, alloc_dmabuf, heap_paths}

module _ (os : Os) (laws : CountsFds os) (size : ℕ) where
  -- From a state with the same descriptors open as in `w`.
  abbrev RestLeaves : os.World → Rest os size → Type 0
  RestLeaves w rest = (w1 : os.World) → Opens os w (none, w1) → Leaves os w (rest w1)

  mapped-Leaves :
      (fd : ℕ) (w w1 : os.World) (r : Option ℕ × os.World) (rest : Rest os size)
      → Opens os w (some fd, w1)
      → Opens os w1 (none, r.1)
      → RestLeaves w rest
      → Leaves os w (mapped os size fd r rest)
  unfolding mapped
  mapped-Leaves fd w w1 (none, w2) rest h m next = next _ (close-Opens os laws fd w w1 w2 h m)
  mapped-Leaves fd w w1 (some map, w2) rest (new, h) m next = (new, λ j. m j ∙ h j)

  allocated-Leaves :
      (heap : ℕ) (w w1 : os.World) (r : Option ℕ × os.World) (rest : Rest os size)
      → Opens os w (some heap, w1)
      → Opens os w1 r
      → RestLeaves w rest
      → Leaves os w (allocated os size heap r rest)
  unfolding allocated
  allocated-Leaves heap w w1 (none, w2) rest h m next =
      next _ (close-Opens os laws heap w w1 w2 h m)
  allocated-Leaves heap w w1 (some fd, w2) rest h m next =
      mapped-Leaves fd w (os.close heap w2) (os.mmap size fd (os.close heap w2)) rest
        (swap-Opens os laws heap fd w w1 w2 h m) (laws.mmap size fd (os.close heap w2)) next

  opened-Leaves :
      (w : os.World) (r : Option ℕ × os.World) (rest : Rest os size)
      → Opens os w r
      → RestLeaves w rest
      → Leaves os w (opened os size r rest)
  unfolding opened
  opened-Leaves w (none, w1) rest h next = next w1 h
  opened-Leaves w (some heap, w1) rest h next =
      allocated-Leaves heap w w1 (os.heap_alloc heap size w1) rest h (laws.heap_alloc heap size w1)
        next

  -- A result from a later state with the same descriptors.
  later-Leaves :
      (w w1 : os.World) (r : Allocated os) → Opens os w (none, w1) → Leaves os w1 r → Leaves os w r
  later-Leaves w w1 (none, w2) h m = λ j. m j ∙ h j
  later-Leaves w w1 (some (fd, map), w2) h (new, m) =
      (ground (arith, h fd), λ j. ground (arith, m j, h j))

  try_heaps-Leaves : (ps : List FilePath) (w : os.World) → Leaves os w (try_heaps os size ps w)
  unfolding try_heaps
  try_heaps-Leaves [] w = λ j. refl
  try_heaps-Leaves (p ∷ ps) w =
      opened-Leaves w (os.open_file p w) (try_heaps os size ps) (laws.open_file p w)
        λ w1 h. later-Leaves w w1 _ h (try_heaps-Leaves ps w1)

  -- Where the system calls treat descriptors as documented, `alloc_dmabuf` leaks none, however many
  -- of the heaps it tries and whichever calls fail: if it fails, the open descriptors are those
  -- before, and if it succeeds, those and the buffer's.
  pub alloc_dmabuf-Leaves : (w : os.World) → Leaves os w (alloc_dmabuf os size w)
  unfolding alloc_dmabuf
  alloc_dmabuf-Leaves w = try_heaps-Leaves heap_paths w
