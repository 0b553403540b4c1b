-- ===== src/Process.antt =====
-- The system calls that the programs of tools/ make but for the ioctls of the device, as an interface:
-- their code is not part of this repository.
pub mod Descriptors
use vcam_kmod.Base.{ℕ, ◌≡◌, Bool, true, false, not, ◌&&◌, ◌||◌, ◌==◌, Option, none, some}

-- The files that the programs open.
pub data FilePath : Type 0 where
  vcam_device : FilePath
  heap_system heap_system_uncached heap_mtk_mm heap_mtk_prot_region heap_mtk_2d_fr_region : FilePath

-- `none` is an answer below 0, or MAP_FAILED. `World` is the state of the process in the kernel.
pub record Os : Type 1 where
  pub World : Type 0
  pub open_file : FilePath → World → Option ℕ × World
  -- DMA_HEAP_IOCTL_ALLOC on a heap: the descriptor of a buffer of a size.
  pub heap_alloc : (heap size : ℕ) → World → Option ℕ × World
  pub memfd_create : World → Option ℕ × World
  pub ftruncate : (fd size : ℕ) → World → Bool × World
  pub mmap : (size fd : ℕ) → World → Option ℕ × World
  pub munmap : (map size : ℕ) → World → World
  pub close : ℕ → World → World
  -- Whether the process has a descriptor open.
  pub is_open : ℕ → World → Bool

-- The descriptor and the address of a buffer.
abbrev pub Allocated : Os → Type 0
Allocated os = Option (ℕ × ℕ) × os.World

-- A call that may give a new descriptor.
abbrev pub Opens : (os : Os) → os.World → Option ℕ × os.World → Type 0
Opens os w (none, w') = (j : ℕ) → os.is_open j w' ≡ os.is_open j w
Opens os w (some fd, w') =
    (os.is_open fd w ≡ false) × ((j : ℕ) → os.is_open j w' ≡ (j == fd || os.is_open j w))

-- What the calls do to the descriptors of the process, as documented.
pub record CountsFds (os : Os) : Type 0 where
  pub open_file : (p : FilePath) (w : os.World) → Opens os w (os.open_file p w)
  pub heap_alloc : (heap size : ℕ) (w : os.World) → Opens os w (os.heap_alloc heap size w)
  pub memfd_create : (w : os.World) → Opens os w (os.memfd_create w)
  pub ftruncate :
      (fd size : ℕ) (w : os.World) (j : ℕ)
      → os.is_open j (os.ftruncate fd size w).1 ≡ os.is_open j w
  pub mmap :
      (size fd : ℕ) (w : os.World) (j : ℕ) → os.is_open j (os.mmap size fd w).1 ≡ os.is_open j w
  pub munmap :
      (map size : ℕ) (w : os.World) (j : ℕ) → os.is_open j (os.munmap map size w) ≡ os.is_open j w
  pub close :
      (fd : ℕ) (w : os.World) (j : ℕ)
      → os.is_open j (os.close fd w) ≡ (os.is_open j w && not (j == fd))
