-- ===== src/Device/Passes.antt =====
-- tools/vcam_selftest.c, the whole of it, on a module that has just been loaded.
use vcam_kmod.Base.{ℕ, ◌≡◌, ◌<◌, ◌∙◌, some, none, ap, sym}
use vcam_kmod.Base.Int.{pos}
use vcam_kmod.Process.{Os, vcam_device, Opens, CountsFds}
use vcam_kmod.Process.Descriptors.{opened_fd, allocated_fd}
use vcam_kmod.Shim.{Fds, max_dma_bufs}
use vcam_kmod.Main.Module.{Module, vcam_init}
use vcam_kmod.Device.Memory.{Locals, Machine, process}
use vcam_kmod.Device.Alloc.{alloc_dmabuf}
use vcam_kmod.Device.Program.{main}
use vcam_kmod.Device.Run.{main_passes}
use vcam_kmod.Device.Whole.{frame_size, whole_main}
use vcam_kmod.Device.Closed.{whole_main-Closed}

-- On a module that has just been loaded, whatever its parameters are, the whole device self-test
-- exits with 0, no failure counted and the descriptors open that were open before it, if it can
-- open the device and allocate its buffer, the buffer's descriptor is below 64 and the harness
-- knows it, and the system calls treat descriptors as documented. If its statements run once more
-- on what it leaves, they return 2.
pub whole_main_passes :
    (os : Os) (w : os.World) (m : Module) (dev d map : ℕ) (fds : Fds) (v : Locals)
    → CountsFds os
    → (os.open_file vcam_device w).0 ≡ some dev
    → (alloc_dmabuf os frame_size (os.open_file vcam_device w).1).0 ≡ some (d, map)
    → d < max_dma_bufs
    → 0 < (fds d).size
    → let (_, m', w') = vcam_init process m (fds, v) in
      let (code, left, done) =
        whole_main os w (record { pool = m'.pool; world = w'; failures = 0 }) in
      (code ≡ 0)
      × (done.failures ≡ 0)
      × Opens os w (none, left)
      × ((main (pos dev) (pos d) done).0 ≡ 2)
whole_main_passes os w m dev d map fds v laws opened got low sized =
    let loaded = vcam_init process m (fds, v) in
    let machine : Machine = record { pool = loaded.1.pool; world = loaded.2; failures = 0 } in
    let (passed, clean, again) = main_passes m dev d fds v low sized in
    let (kept, same) = whole_main-Closed os laws w machine in
    let ran : main (pos dev) (pos d) machine
        ≡ ((whole_main os w machine).0, (whole_main os w machine).2) =
      rw (sym (ap opened_fd opened), sym (ap allocated_fd got)) same in
    (
      sym (ap (λ o. o.0) ran) ∙ passed,
      sym (ap (λ o. o.1.failures) ran) ∙ clean,
      kept,
      sym (ap (λ o. (main (pos dev) (pos d) o.1).0) ran) ∙ again,
    )
