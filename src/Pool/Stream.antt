-- ===== src/Pool/Stream.antt =====
-- The pool of src/vcam_pool.c as a stream of frames.
pub mod Defs
mod Writes
mod Producer
mod Consumer
use vcam_kmod.Base.{ℕ, ◌≡◌, refl, arith, List, [], ◌∷◌, ◌++◌, subst, sym}
use vcam_kmod.Uapi.{Range, Pose}
use vcam_kmod.Kernel.{Kernel, Result, ok, err}
use vcam_kmod.Pool.State.{Pool}
use vcam_kmod.Pool.Producer.{register, unregister, submit}
use vcam_kmod.Pool.Consumer.{take, acquire, dequeue, release}
use vcam_kmod.Pool.Control.{poll, set_range, set_pose, set_backend, attach}
use vcam_kmod.Pool.Step.{Call, Reply, step, run}
use vcam_kmod.Pool.Invariant.Defs.{IsValid}
use vcam_kmod.Pool.Safety.{step-IsValid}
use vcam_kmod.Pool.Stream.Defs.{Stream, Moves, Sets, Serves, Behaves, view}
use vcam_kmod.Pool.Stream.Writes.{Keeps-slots}
use vcam_kmod.Pool.Stream.Producer.{register-Moves, unregister-Moves, submit-Moves}
use vcam_kmod.Pool.Stream.Consumer.{dequeue-Moves, acquire-Moves, release-Moves, peek-Moves}

set_range-Moves :
    (p : Pool) (r : Range)
    → let (x, q) = set_range p r in Moves (Call.set_range r) (Reply.done x) (view p) (view q)
unfolding set_range
set_range-Moves p r = Keeps-slots p (set_range p r).1 (ground arith)

set_pose-Moves :
    (p : Pool) (r : Pose)
    → let (x, q) = set_pose p r in Moves (Call.set_pose r) (Reply.done x) (view p) (view q)
unfolding set_pose
set_pose-Moves p r = Keeps-slots p (set_pose p r).1 (ground arith)

set_backend-Moves :
    (p : Pool) (b : ℕ)
    → let (x, q) = set_backend p b in Moves (Call.set_backend b) (Reply.done x) (view p) (view q)
unfolding set_backend
set_backend-Moves p b = Keeps-slots p (set_backend p b).1 (ground arith)

set_range-Sets :
    (p : Pool) (r : Range)
    → let (x, q) = set_range p r in Sets (Call.set_range r) (Reply.done x) (view p) (view q)
unfolding set_range
set_range-Sets p r = ground arith

set_pose-Sets :
    (p : Pool) (r : Pose)
    → let (x, q) = set_pose p r in Sets (Call.set_pose r) (Reply.done x) (view p) (view q)
unfolding set_pose
set_pose-Sets p r = ground arith

module _ (k : Kernel) where
  step-Moves :
      (c : Call) (p : Pool) (w : k.World)
      → IsValid p
      → Moves c (step k c p w).0 (view p) (view (step k c p w).1)
  unfolding step poll attach
  step-Moves (Call.register fd fmt) p w v = register-Moves p v k w fd fmt
  step-Moves (Call.unregister i) p w v = unregister-Moves p v k w i
  step-Moves (Call.submit i n t rot flags) p w v = submit-Moves p v i n t rot flags
  step-Moves Call.acquire p w v = acquire-Moves k p v w
  step-Moves Call.dequeue p w v = dequeue-Moves k p v w
  step-Moves (Call.release n) p w v = release-Moves k p v w n
  step-Moves Call.peek p w v = peek-Moves k p v w
  step-Moves Call.poll p w v = Keeps-slots p (poll p).1 (ground arith)
  step-Moves (Call.set_range r) p w v = set_range-Moves p r
  step-Moves (Call.set_pose r) p w v = set_pose-Moves p r
  step-Moves (Call.set_backend b) p w v = set_backend-Moves p b
  step-Moves Call.attach p w v = Keeps-slots p (attach p) (ground arith)
  step-Moves Call.get_stats p w v = Keeps-slots p p refl

  step-Sets :
      (c : Call) (p : Pool) (w : k.World) → Sets c (step k c p w).0 (view p) (view (step k c p w).1)
  unfolding step register unregister submit take acquire dequeue release poll set_backend attach
  step-Sets (Call.set_range r) p w = set_range-Sets p r
  step-Sets (Call.set_pose r) p w = set_pose-Sets p r
  step-Sets c p w = ground arith

  step-Serves :
      (c : Call) (p : Pool) (w : k.World)
      → IsValid p
      → Serves c (step k c p w).0 (view p) (view (step k c p w).1)
  step-Serves c p w v = (step-Moves c p w v, step-Sets c p w)

  -- The pool is a stream of frames. From a valid pool, through any calls, each in any state of the
  -- machine, every call does to the stream what its reply says: an accepted submission puts a frame
  -- with the pose of the moment and the buffer of its slot at the end of the queue; a dequeue or an
  -- acquire that succeeds hands out the first frame, which the range rule does not drop, a dequeue
  -- with its pose; a dequeue that fails finds the queue empty, or loses the first frame, which the
  -- rule drops; an acquire that fails leaves all, or loses that frame; a peek shows the first frame
  -- and its buffer, or an empty queue; a release takes a frame back that was out; a registration
  -- binds a free slot and an unregistration frees a bound one; the setters set the pose and the
  -- range; and every other reply leaves the frames, the buffers and the settings.
  pub run-Behaves :
      (cs : List (Call × k.World)) (p : Pool)
      → IsValid p
      → Behaves (run k cs p).0 (view p) (view (run k cs p).1)
  unfolding run
  run-Behaves [] p v = refl
  run-Behaves ((c, w) ∷ cs) p v =
      let q = (step k c p w).1 in
      (view q, step-Serves c p w v, run-Behaves cs q (step-IsValid k c w v))
