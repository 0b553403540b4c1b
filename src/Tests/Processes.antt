-- ===== src/Tests/Processes.antt =====
-- The whole programs of tools/ on a process with few descriptors.
use vcam_kmod.Base.{
  ℕ, ◌≡◌, ◌==◌, ◌||◌, ◌&&◌, not, Bool, true, Option, some, none, refl, arith, if◌then◌else◌,
}
use vcam_kmod.Process.{Os, vcam_device, Opens, CountsFds}
use vcam_kmod.Process.Descriptors.{opened_fd, allocated_fd}
use vcam_kmod.Ctl.Alloc.{alloc_heap_buffer, alloc_memfd_buffer}
use vcam_kmod.Ctl.Closed.{Closes, either_main-Closes}
use vcam_kmod.Device.Alloc.{alloc_dmabuf}
use vcam_kmod.Device.Program.{main}
use vcam_kmod.Device.Whole.{frame_size, whole_main}
use vcam_kmod.Device.Closed.{whole_main-Closed}
use vcam_kmod.Tests.{fresh_fds, busy_pool}
use vcam_kmod.Tests.Tools.{variables as device_variables}
use vcam_kmod.Tests.Whole.{variables as ctl_variables, odd_module}
use vcam_kmod.Base.Int.{pos}
use vcam_kmod.Main.Module.{vcam_init}
use vcam_kmod.Device.Passes.{whole_main_passes}
use vcam_kmod.Device.Memory.{Machine, process}
use vcam_kmod.Ctl.{Machine as CtlMachine}

-- A process that can have three descriptors, 3 to 5.
abbrev allot : (ℕ → Bool) → Option ℕ × (ℕ → Bool)
allot w =
    if not (w 3)
    then (some 3, λ j. j == 3 || w j)
    else if not (w 4)
    then (some 4, λ j. j == 4 || w j)
    else if not (w 5)
    then (some 5, λ j. j == 5 || w j)
    else (none, w)

abbrev three_fds : Os
three_fds = record {
  World = ℕ → Bool;
  open_file = λ p w. allot w;
  heap_alloc = λ heap size w. allot w;
  memfd_create = allot;
  ftruncate = λ fd size w. (true, w);
  mmap = λ size fd w. (some 4096, w);
  munmap = λ map size w. w;
  close = λ fd w j. w j && not (j == fd);
  is_open = λ j w. w j;
}

allot-Opens : (w : ℕ → Bool) → Opens three_fds w (allot w)
allot-Opens w = ground arith

abbrev laws : CountsFds three_fds
laws = record {
  open_file = λ p w. allot-Opens w;
  heap_alloc = λ heap size w. allot-Opens w;
  memfd_create = allot-Opens;
  ftruncate = λ fd size w j. refl;
  mmap = λ size fd w j. refl;
  munmap = λ map size w j. refl;
  close = λ fd w j. refl;
}

abbrev device_machine : Machine
device_machine = record { pool = busy_pool; world = (fresh_fds, device_variables); failures = 0 }

abbrev ctl_machine : CtlMachine
ctl_machine = record { pool = busy_pool; world = (fresh_fds, ctl_variables) }

either_main-Closes_example :
    Closes three_fds (alloc_heap_buffer three_fds) (some "selftest") (λ j. j == 0) ctl_machine
    × Closes three_fds (alloc_memfd_buffer three_fds) (some "selftest") (λ j. j == 0) ctl_machine
either_main-Closes_example =
    either_main-Closes three_fds laws (some "selftest") (λ j. j == 0) ctl_machine

-- The standard input is open; the device, a heap and the buffer get descriptors.
whole_main-Closed_example :
    let w : ℕ → Bool = λ j. j == 0 in
    let (dev, w1) = three_fds.open_file vcam_device w in
    let (buffer, _) = alloc_dmabuf three_fds frame_size w1 in
    let (code, w', m') = whole_main three_fds w device_machine in
    Opens three_fds w (none, w')
    × (main (opened_fd dev) (allocated_fd buffer) device_machine ≡ (code, m'))
whole_main-Closed_example = whole_main-Closed three_fds laws (λ j. j == 0) device_machine

opens : (three_fds.open_file vcam_device (λ j. j == 0)).0 ≡ some 3
opens = refl

allocates :
    (alloc_dmabuf three_fds frame_size (three_fds.open_file vcam_device (λ j. j == 0)).1).0
    ≡ some (5, 4096)
unfolding alloc_dmabuf
allocates = refl

whole_main_passes_example :
    let (_, m', w') = vcam_init process odd_module (fresh_fds, device_variables) in
    let (code, left, done) =
      whole_main three_fds (λ j. j == 0) (record { pool = m'.pool; world = w'; failures = 0 }) in
    (code ≡ 0)
    × (done.failures ≡ 0)
    × Opens three_fds (λ j. j == 0) (none, left)
    × ((main (pos 3) (pos 5) done).0 ≡ 2)
whole_main_passes_example =
    whole_main_passes three_fds (λ j. j == 0) odd_module 3 5 4096 fresh_fds device_variables laws
      opens allocates (omega arith) (omega arith)
