-- ===== src/Threads/Stream.antt =====
-- Threads that share the pool of src/vcam_pool.c, as a stream of frames.
use vcam_kmod.Base.{ℕ, ◌≡◌, ◌∙◌, ap, sym, none, List, [], subst}
use vcam_kmod.Kernel.{Kernel}
use vcam_kmod.Pool.State.{Pool}
use vcam_kmod.Pool.Step.{Call}
use vcam_kmod.Pool.Invariant.Defs.{IsValid}
use vcam_kmod.Pool.Stream.Defs.{Behaves, view}
use vcam_kmod.Pool.Stream.{run-Behaves}
use vcam_kmod.Threads.System.{Event, play, start}
use vcam_kmod.Threads.Serial.Defs.{Order, Serialised}
use vcam_kmod.Threads.Serial.Runs.{trace_of, calls_of, Serial-run}
use vcam_kmod.Threads.Serial.{play-Serialised}

module _ (k : Kernel) (calls : ℕ → Call) where
  -- Threads that share a valid pool use a stream of frames. Any threads, each with one call, run
  -- with their steps and those of other processes alternating in any way. Whenever the mutex is
  -- free, there is an order of the calls that have taken effect, which leads to the pool and to the
  -- replies, and the stream can do these calls in this order with these replies from the stream of
  -- the first pool to that of the pool as it is.
  pub play-Behaves :
      (p : Pool) (w : k.World) (es : List (Event k))
      → IsValid p
      → (play k es (start k calls p w)).owner ≡ none
      → let s = play k es (start k calls p w) in
        (ts : Order) × Serialised k calls p s ts
        × Behaves (trace_of calls ts) (view p) (view s.pool)
  play-Behaves p w es v free =
      let (ts, _, h, _) = play-Serialised k calls p w es [] in
      (
        ts,
        h,
        subst (λ x. Behaves x.0 (view p) (view x.1))
            (Serial-run k calls h.serial ∙ ap (λ q. (trace_of calls ts, q)) (sym (h.settled free)))
            (run-Behaves k (calls_of k calls h.serial) p v),
      )
