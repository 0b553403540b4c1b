-- ===== src/Main/Module.antt =====
-- The module's state and its entry points. The log messages are left out, and so are the constant
-- tables that `misc_register` is given.
use vcam_kmod.Base.{ℕ, Bool, true, false, ◌||◌, ltb, ◌==◌, if◌then◌else◌}
use vcam_kmod.Kernel.{Kernel, Result, ok, err}
use vcam_kmod.Pool.State.{Pool, init, max_slots}
use vcam_kmod.Pool.Producer.{destroy}
use vcam_kmod.Pool.Control.{set_backend}
use vcam_kmod.Ctrl.Dispatch.{File}

abbrev pub default_slots : ℕ
default_slots = 3

-- The two module parameters, the pool, and whether it is ready.
pub record Module : Type 0 where
  pub slots : ℕ
  pub backend : ℕ
  pub pool : Pool
  pub pool_ready : Bool

-- Whether `vcam_pool_singleton` returns the pool, or NULL.
unfoldable pub pool_singleton : Module → Bool
pool_singleton m = m.pool_ready

abbrev pub want : ℕ → ℕ
want slots = if slots == 0 || ltb max_slots slots then default_slots else slots

module _ (k : Kernel) where
  -- The end of `vcam_init`, from the registration of the device on.
  unfoldable pub init_registered :
      Module → Pool → Result (Unit {0}) × k.World → Result (Unit {0}) × Module × k.World
  init_registered m p (ok _, w) = (ok tt, record m { pool = p; pool_ready = true }, w)
  init_registered m p (err e, w) =
      let (p', w') = destroy k p w in (err e, record m { pool = p'; pool_ready = false }, w')

  unfoldable pub init_pooled :
      Module → Result (Unit {0}) × Pool → k.World → Result (Unit {0}) × Module × k.World
  unfolding init_registered
  init_pooled m (err e, p) w = (err e, record m { pool = p; pool_ready = false }, w)
  init_pooled m (ok _, p) w = init_registered m (set_backend p m.backend).1 (k.misc_register w)

  unfoldable pub vcam_init : Module → k.World → Result (Unit {0}) × Module × k.World
  unfolding init_pooled
  vcam_init m w = init_pooled m (init m.pool (want m.slots)) w

  unfoldable pub vcam_exit : Module → k.World → Module × k.World
  vcam_exit m w =
      let (p, w') = destroy k m.pool (k.misc_deregister w) in
      (record m { pool = p; pool_ready = false }, w')

-- `vcam_open` and `vcam_release`.
unfoldable pub open_file : Module → File → File
unfolding pool_singleton
open_file m f = record { private_data = pool_singleton m }

unfoldable pub release_file : File → File
release_file f = record { private_data = false }
