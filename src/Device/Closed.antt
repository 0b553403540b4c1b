-- ===== src/Device/Closed.antt =====
-- What the whole `main` of tools/vcam_selftest.c leaves open, and how it exits.
use vcam_kmod.Base.{ℕ, ◌≡◌, ◌∙◌, true, false, if◌then◌else◌, Option, none, some, refl}
use vcam_kmod.Base.Int.{ℤ, pos}
use vcam_kmod.Process.{Os, vcam_device, Opens, CountsFds, Allocated}
use vcam_kmod.Process.Descriptors.{
  Leaves, close-Opens, swap-Opens, freed-Opens, opened_fd, allocated_fd,
}
use vcam_kmod.Main.Fresh.{nonneg}
use vcam_kmod.Device.Memory.{Machine}
use vcam_kmod.Device.Expect.{execute_all}
use vcam_kmod.Device.Program.{baseline, used, main}
use vcam_kmod.Device.Leaks.{alloc_dmabuf-Leaves}
use vcam_kmod.Device.Alloc.{alloc_dmabuf}
use vcam_kmod.Device.Whole.{
  frame_size, Ended, shut_down, compared, allocated_main, opened_main, whole_main,
}

-- The descriptors are those in `w`, and the code and the machine are those of `main` on descriptors.
abbrev Closed : (os : Os) → os.World → Machine → (dev fd : ℤ) → Ended os → Type 0
Closed os w m dev fd (code, w', m') = Opens os w (none, w') × (main dev fd m ≡ (code, m'))

module _ (os : Os) (laws : CountsFds os) where
  shut_down-Opens :
      (dev fd map : ℕ) (w w1 w2 : os.World) (m : Machine)
      → Opens os w (some dev, w1)
      → Opens os w1 (some fd, w2)
      → Opens os w (none, shut_down os dev fd map m w2)
  unfolding shut_down
  shut_down-Opens dev fd map w w1 w2 m h k =
      let both = os.close fd (os.close dev w2) in
      let shut =
        close-Opens os laws fd w (os.close dev w2) (os.close dev w2)
          (swap-Opens os laws dev fd w w1 w2 h k) (λ j. refl) in
      let ordered =
        close-Opens os laws dev w w1 _ h (freed-Opens os laws frame_size w1 fd map w2 k) in
      elim (used m)
        as (λ b. Opens os w (
          none,
          if b
              then os.munmap map frame_size both
              else os.close dev (os.close fd (os.munmap map frame_size w2)),
        )) [ true ↦ λ j. laws.munmap map frame_size both j ∙ shut j | false ↦ ordered ]

  allocated_main-Closed :
      (dev : ℕ) (w w1 : os.World) (r : Allocated os) (m : Machine)
      → Opens os w (some dev, w1)
      → Leaves os w1 r
      → Closed os w m (pos dev) (allocated_fd r.0) (allocated_main os dev r m)
  unfolding allocated_main compared main
  allocated_main-Closed dev w w1 (none, w2) m h k =
      (close-Opens os laws dev w w1 w2 h k, rw (nonneg dev) refl)
  allocated_main-Closed dev w w1 (some (fd, map), w2) m h k = (
    shut_down-Opens dev fd map w w1 w2 (execute_all baseline m) h k,
    rw (nonneg dev, nonneg fd) refl,
  )

  opened_main-Closed :
      (w : os.World) (r : Option ℕ × os.World) (m : Machine)
      → Opens os w r
      → Closed os w m
          (opened_fd r.0)
          (allocated_fd (alloc_dmabuf os frame_size r.1).0)
          (opened_main os r m)
  unfolding opened_main main
  opened_main-Closed w (none, w1) m h = (h, refl)
  opened_main-Closed w (some dev, w1) m h =
      allocated_main-Closed dev w w1 (alloc_dmabuf os frame_size w1) m h
        (alloc_dmabuf-Leaves os laws frame_size w1)

  -- Where the system calls treat descriptors as documented, the device self-test ends with the
  -- descriptors open that were open before it, whichever call fails and also where it stops at a
  -- pool that has been used; and its exit code, its variables and the pool are those of the
  -- statement-by-statement `main` on what opening the device and allocating the buffer answered.
  pub whole_main-Closed :
      (w : os.World) (m : Machine)
      → let (dev, w1) = os.open_file vcam_device w in
        let (buffer, _) = alloc_dmabuf os frame_size w1 in
        let (code, w', m') = whole_main os w m in
        Opens os w (none, w') × (main (opened_fd dev) (allocated_fd buffer) m ≡ (code, m'))
  unfolding whole_main
  whole_main-Closed w m =
      opened_main-Closed w (os.open_file vcam_device w) m (laws.open_file vcam_device w)
