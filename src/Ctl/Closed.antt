-- ===== src/Ctl/Closed.antt =====
-- What the whole `main` of tools/vcamctl.c leaves open, and how it exits.
use vcam_kmod.Base.{ℕ, ◌≡◌, true, false, if◌then◌else◌, Option, none, some, refl}
use Prim.Native.String.{String}
use text.Mathlib.Text.{◌==◌ as str_eq}
use vcam_kmod.Base.Int.{ℤ}
use vcam_kmod.Process.{Os, vcam_device, Opens, CountsFds, Allocated}
use vcam_kmod.Process.Descriptors.{Leaves, close-Opens, freed-Opens, opened_fd, allocated_fd}
use vcam_kmod.Main.Fresh.{nonneg}
use vcam_kmod.Ctl.{Machine}
use vcam_kmod.Ctl.Commands.{command_of, main}
use vcam_kmod.Ctl.Alloc.{alloc_heap_buffer, alloc_memfd_buffer}
use vcam_kmod.Ctl.Leaks.{alloc_buffer-Leaves}
use vcam_kmod.Ctl.Whole.{frame_size, Ended, buffer_for, freed_buffer, opened_main, whole_main}

-- The descriptors are those in `w`, and the rest is the result of `main` on two descriptors.
abbrev Closed :
    (os : Os) (alloc : ℕ → os.World → Allocated os)
    → os.World
    → Option String
    → Machine
    → (dev fd : ℤ) → Ended os alloc
    → Type 0
Closed os alloc w arg m dev fd (code, out, w', m') =
    Opens os w (none, w') × (main arg dev fd m ≡ (code, out, m'))

-- The whole program, against `main` on what opening the device and allocating the buffer answered.
abbrev pub Closes :
    (os : Os) → (ℕ → os.World → Allocated os) → Option String → os.World → Machine → Type 0
Closes os alloc arg w m =
    let (dev, w1) = os.open_file vcam_device w in
    let (buffer, _) = buffer_for os alloc (command_of arg) w1 in
    Closed os alloc w arg m (opened_fd dev) (allocated_fd buffer) (whole_main os alloc arg w m)

module _ (os : Os) (laws : CountsFds os) where
  module _ (alloc : ℕ → os.World → Allocated os)
      (kept : (size : ℕ) (w : os.World) → Leaves os w (alloc size w)) where
    buffer_for-Leaves : (cmd : String) (w : os.World) → Leaves os w (buffer_for os alloc cmd w)
    unfolding buffer_for
    buffer_for-Leaves cmd w =
        elim (str_eq cmd "selftest")
          as (λ b. Leaves os w (if b then alloc frame_size w else (none, w))) [
            | true ↦ kept frame_size w
            | false ↦ λ j. refl
          ]

    freed_buffer-Closed :
        (w : os.World) (r : Allocated os)
        → Leaves os w r
        → Opens os w (none, freed_buffer os alloc r)
    unfolding freed_buffer
    freed_buffer-Closed w (none, w1) h = h
    freed_buffer-Closed w (some (fd, map), w1) h = freed-Opens os laws frame_size w fd map w1 h

    opened_main-Closed :
        (arg : Option String) (w : os.World) (r : Option ℕ × os.World) (m : Machine)
        → Opens os w r
        → Closed os alloc w arg m
            (opened_fd r.0)
            (allocated_fd (buffer_for os alloc (command_of arg) r.1).0)
            (opened_main os alloc (command_of arg) r m)
    unfolding opened_main main
    opened_main-Closed arg w (none, w1) m h = (h, refl)
    opened_main-Closed arg w (some dev, w1) m h = (
      close-Opens os laws dev w w1 _ h
          (freed_buffer-Closed w1 _ (buffer_for-Leaves (command_of arg) w1)),
      rw (nonneg dev) refl,
    )

    whole_main-Closes : (arg : Option String) (w : os.World) (m : Machine) → Closes os alloc arg w m
    unfolding whole_main
    whole_main-Closes arg w m =
        opened_main-Closed arg w (os.open_file vcam_device w) m (laws.open_file vcam_device w)

  -- Where the system calls treat descriptors as documented, vcamctl ends with the descriptors open
  -- that were open before it, on both builds, whatever its argument and whichever call fails; and
  -- its exit code, its output, its variables and the pool are those of `main` on what opening the
  -- device and allocating the buffer answered, where only the self-test allocates one.
  pub either_main-Closes :
      (arg : Option String) (w : os.World) (m : Machine)
      → Closes os (alloc_heap_buffer os) arg w m × Closes os (alloc_memfd_buffer os) arg w m
  either_main-Closes arg w m = (
    whole_main-Closes (alloc_heap_buffer os) (λ size w. (alloc_buffer-Leaves os laws size w).0) arg
        w m,
    whole_main-Closes (alloc_memfd_buffer os) (λ size w. (alloc_buffer-Leaves os laws size w).1) arg
        w m,
  )
