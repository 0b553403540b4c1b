-- ===== src/Process/Descriptors.antt =====
-- The descriptors that a program of tools/ has open after a sequence of system calls.
use vcam_kmod.Base.{ℕ, ◌≡◌, ◌∙◌, false, ◌||◌, ◌==◌, Option, none, some, arith, sym, ap, ℕ_discrete}
use vcam_kmod.Base.Int.{ℤ, pos, negsuc}
use vcam_kmod.Process.{Os, Opens, CountsFds, Allocated}

-- An answer as the code tests it: below 0 for none.
abbrev pub opened_fd : Option ℕ → ℤ
opened_fd none = negsuc 0
opened_fd (some fd) = pos fd

abbrev pub allocated_fd : Option (ℕ × ℕ) → ℤ
allocated_fd none = negsuc 0
allocated_fd (some (fd, map)) = pos fd

module _ (os : Os) where
  -- The descriptors after an allocation: those before, and that of the buffer, if there is one.
  abbrev pub Leaves : os.World → Allocated os → Type 0
  Leaves w (none, w') = Opens os w (none, w')
  Leaves w (some (fd, map), w') = Opens os w (some fd, w')

  module _ (laws : CountsFds os) where
    -- A new descriptor, and its end.
    pub close-Opens :
        (fd : ℕ) (w w1 w2 : os.World)
        → Opens os w (some fd, w1)
        → Opens os w1 (none, w2)
        → Opens os w (none, os.close fd w2)
    close-Opens fd w w1 w2 (new, h) m j = elim (ℕ_discrete j fd) [
      | yes e ↦ ground (arith, laws.close fd w2 j, ap (λ x. os.is_open x w) e)
      | no n ↦ ground (arith, laws.close fd w2 j, m j, h j)
    ]

    -- A buffer, and the end of its mapping and of its descriptor.
    pub freed-Opens :
        (size : ℕ) (w : os.World) (fd map : ℕ) (w1 : os.World)
        → Opens os w (some fd, w1)
        → Opens os w (none, os.close fd (os.munmap map size w1))
    freed-Opens size w fd map w1 h = close-Opens fd w w1 _ h (laws.munmap map size w1)

    -- A heap and a buffer from it, and the end of the heap.
    pub swap-Opens :
        (heap fd : ℕ) (w w1 w2 : os.World)
        → Opens os w (some heap, w1)
        → Opens os w1 (some fd, w2)
        → Opens os w (some fd, os.close heap w2)
    swap-Opens heap fd w w1 w2 (new, h) (new', h') =
        let other : (fd == heap || os.is_open fd w) ≡ false = sym (h fd) ∙ new' in
        (
          ground arith,
          λ j. elim (ℕ_discrete j heap) [
            | yes e ↦ ground (arith, laws.close heap w2 j, ap (λ x. os.is_open x w) e)
            | no n ↦ ground (arith, laws.close heap w2 j, h' j, h j)
          ],
        )
