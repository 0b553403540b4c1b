-- ===== src/Threads/Queue.antt =====
-- Threads that share the pool of src/vcam_pool.c, which is a queue for them too.
use vcam_kmod.Base.{ℕ, ◌≤◌, ◌<◌, ◌≡◌, ◌∙◌, sym, ap, subst, true, none, List, [], ◌∷◌, ◌++◌}
use vcam_kmod.Kernel.{Kernel}
use vcam_kmod.Pool.State.{Pool, init, max_slots}
use vcam_kmod.Pool.Step.{Call}
use vcam_kmod.Pool.Fifo.Pending.{pending}
use vcam_kmod.Pool.Fifo.Order.{all_accepted, all_delivered}
use vcam_kmod.Pool.Fifo.Lossless.{init-queue, Lossless, is_lossless}
use vcam_kmod.Threads.System.{Event, play, start}
use vcam_kmod.Threads.Serial.Defs.{Order, Serial, origin, then_call, Serialised}
use vcam_kmod.Threads.Serial.Runs.{trace_of, calls_of, Serial-run}
use vcam_kmod.Threads.Serial.{play-Serialised}

module _ (k : Kernel) (calls : ℕ → Call) (lossless : (i : ℕ) → is_lossless (calls i) ≡ true) where
  Lossless-append :
      (cs : List (Call × k.World)) (c : Call) (w : k.World)
      → Lossless k cs
      → is_lossless c ≡ true
      → Lossless k (cs ++ (c, w) ∷ [])
  Lossless-append [] c w l e = (e, tt)
  Lossless-append (_ ∷ cs) c w (h, l) e = (h, Lossless-append cs c w l e)

  calls_of-Lossless :
      {p q : Pool} {ts : Order} (s : Serial k calls p ts q) → Lossless k (calls_of k calls s)
  calls_of-Lossless origin = tt
  calls_of-Lossless (then_call i r s fresh d) =
      Lossless-append (calls_of k calls s) (calls i) d.world (calls_of-Lossless s) (lossless i)

  -- The pool is a lossless first-in first-out queue for threads too. Any threads, each with one
  -- call, of which none is a `set_range` with an end and with looping off, start on a pool that
  -- `vcam_pool_init` has set up with 1 to 8 slots, and their steps and those of other processes
  -- alternate in any way. Whenever the mutex is free, there is an order of the calls that have
  -- taken effect, which leads to the pool and to the replies, in which the frames accepted are the
  -- frames delivered, followed by those that wait, all in order.
  pub play-queue :
      (p : Pool) (n : ℕ) (w : k.World) (es : List (Event k))
      → 0 < n
      → n ≤ max_slots
      → (play k es (start k calls (init p n).1 w)).owner ≡ none
      → let s = play k es (start k calls (init p n).1 w) in
        (ts : Order) × Serialised k calls (init p n).1 s ts
        × (all_accepted (trace_of calls ts)
            ≡ all_delivered (trace_of calls ts) ++ pending s.pool.slot)
  play-queue p n w es lo hi free =
      let (ts, _, h, _) = play-Serialised k calls (init p n).1 w es [] in
      (
        ts,
        h,
        subst (λ x. all_accepted x.0 ≡ all_delivered x.0 ++ pending x.1.slot)
            (Serial-run k calls h.serial ∙ ap (λ q. (trace_of calls ts, q)) (sym (h.settled free)))
            (init-queue k (calls_of k calls h.serial) p n lo hi (calls_of-Lossless h.serial)),
      )
