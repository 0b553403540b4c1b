-- ===== src/Tests/References.antt =====
-- The theorems on references and on the module, at concrete states of the machine.
use vcam_kmod.Base.{ℕ, ◌+◌, ◌-◌, ◌^◌, ◌≡◌, ◌<◌, refl, arith, true, false, [], ◌∷◌, List}
use vcam_kmod.Base.Int.{pos}
use vcam_kmod.Kernel.{CountsRefs, ok, err, ebusy}
use vcam_kmod.Uapi.{Frame}
use vcam_kmod.Logic.Format.{format_validate}
use vcam_kmod.Shim.{fd_refcnt, dma_buf_get}
use vcam_kmod.Shim.Counts.{shim, shim-CountsRefs}
use vcam_kmod.Pool.State.{init, zero_pool}
use vcam_kmod.Pool.Step.{Call, step, run}
use vcam_kmod.Pool.Producer.{register, submit}
use vcam_kmod.Pool.Control.{set_pose, set_backend}
use vcam_kmod.Pool.Consumer.{take, acquire}
use vcam_kmod.Pool.Refs.Held.{held_refs}
use vcam_kmod.Pool.Refs.Calls.{given, Balanced, Sound, step-Balanced}
use vcam_kmod.Main.Module.{Module, vcam_init, vcam_exit}
use vcam_kmod.Main.Lifetime.{IsFresh, vcam_init-ok}
use vcam_kmod.Main.Session.{HasRoom, serve, all_given, session-refs}
use vcam_kmod.Tests.{small, kernel, load, store, world, posed_pool, posed_pool-IsValid}

abbrev limit : ℕ
limit = 2 ^ 32 - 1

abbrev pub laws : CountsRefs kernel limit
laws = shim-CountsRefs Frame load store (ok tt)

shim-CountsRefs_example : CountsRefs (shim Frame load store (err ebusy)) (2 ^ 32 - 1)
shim-CountsRefs_example = shim-CountsRefs Frame load store (err ebusy)

-- The machine after the pool has taken its reference on buffer 3.
abbrev posed_world : kernel.World
posed_world = (kernel.dma_buf_get (pos 3) world).1

posed_world_refs : (b : ℕ) → held_refs b posed_pool.slot ≡ kernel.refs b posed_world
unfolding init run step register format_validate dma_buf_get set_pose held_refs fd_refcnt
posed_world_refs b = ground arith

pub posed_world_room : (b : ℕ) → kernel.refs b posed_world < limit
unfolding dma_buf_get fd_refcnt
posed_world_room b = ground arith

pub world_room : (b : ℕ) → kernel.refs b world < limit
unfolding fd_refcnt
world_room b = ground arith

pub second_world_room : (b : ℕ) → kernel.refs b (kernel.dma_buf_get (pos 3) posed_world).1 < limit
unfolding dma_buf_get fd_refcnt
second_world_room b = ground arith

posed-Sound : Sound kernel laws posed_pool posed_world
posed-Sound = record { room = posed_world_room; real = λ b. omega (arith, posed_world_refs b) }

step-Balanced_example :
    let (r, q, w2) = step kernel (Call.register (pos 3) small) posed_pool posed_world in
    Balanced kernel laws 3 posed_pool posed_world q w2 (given 3 r)
step-Balanced_example =
    step-Balanced kernel laws posed_pool posed_pool-IsValid posed_world posed-Sound 3
      (Call.register (pos 3) small)

abbrev module_two : Module
module_two = record { slots = 2; backend = 1; pool = zero_pool; pool_ready = false }

vcam_init-ok_example :
    let (r, m', w') = vcam_init kernel module_two world in
    (r ≡ ok tt) × (m'.pool_ready ≡ true) × IsFresh 2 1 m'.pool × (w' ≡ world)
vcam_init-ok_example = vcam_init-ok kernel module_two world world refl

abbrev posed_module : Module
posed_module = record { slots = 2; backend = 0; pool = posed_pool; pool_ready = true }

-- One frame is handed out with a reference, and stays out.
abbrev session : List Call
session =
    Call.register (pos 3) small ∷ Call.submit 0 5 (pos 1000) 0 0 ∷ Call.acquire ∷ Call.poll ∷ []

session_room : HasRoom kernel limit session (vcam_init kernel module_two world).1.pool world
unfolding vcam_init init set_backend step register submit format_validate dma_buf_get take acquire
    fd_refcnt
session_room = (world_room, (posed_world_room, (posed_world_room, (second_world_room, tt))))

session-refs_example :
    let m' = (vcam_init kernel module_two world).1 in
    let (rs, q, w2) = serve kernel session m'.pool world in
    let (m2, w3) = vcam_exit kernel (record m' { pool = q }) w2 in
    kernel.refs 3 w3 ≡ kernel.refs 3 world + all_given 3 rs
session-refs_example = session-refs kernel laws module_two world world session refl session_room 3

session_given :
    let (rs, q, w2) = serve kernel session (vcam_init kernel module_two world).1.pool world in
    all_given 3 rs ≡ 1
unfolding vcam_init init set_backend step register submit format_validate dma_buf_get take acquire
    serve
session_given = refl
