-- ===== src/Threads/Calls.antt =====
-- The functions of src/vcam_pool.c as programs: the accesses to the pool, the calls of the kernel,
-- and the mutex, in the order of the code.
use vcam_kmod.Base.{
  ℕ, ◌&&◌, ◌||◌, not, Bool, true, false, Option, none, some, leb, ◌==◌, if◌then◌else◌, set,
}
use vcam_kmod.Base.Int.{ℤ, pos, eqb_ℤ, ltb_ℤ}
use vcam_kmod.Uapi.{Format, Range, Pose}
use vcam_kmod.Kernel.{Kernel, Result, ok, err, einval, ebusy, enoent, eagain, esrch}
use vcam_kmod.Logic.Format.{format_validate}
use vcam_kmod.Logic.Pose.{has_flag}
use vcam_kmod.Logic.Range.{deliver, wrap, drop, to_end, range_decide}
use vcam_kmod.Pool.State.{
  Pool, idle, is_unbound, is_idle, is_filled, is_held, slot_at, inc64, reject_unknown, reject_busy,
  backend_bridge, backend_pipeline,
}
use vcam_kmod.Pool.Producer.{find_unbound, bind_slot, unregistered, submitted, put_if}
use vcam_kmod.Pool.Consumer.{
  Taken, find_held, oldest, dropped, count_wrap, hold, acquire_out, dequeue_out,
}
use vcam_kmod.Pool.Control.{poll, unknown_flags}
use vcam_kmod.Pool.Step.{Call, Reply, slot, buffer, frame, peeked, polled, counted}
use vcam_kmod.Threads.Prog.{Prog, done, lock, unlock, read, write, service}

module _ (k : Kernel) where
  abbrev pub Thread : Type 0
  Thread = Prog k.World

  -- A last write, the end of the critical section, and the reply.
  abbrev finish : Pool → Reply → Thread
  finish p r = write p (unlock (done r))

  -- `register`, from the lock on.
  unfoldable pub register_slot : Option ℕ → Pool → ℕ → ℤ → Format → Thread
  register_slot none p b fd fmt =
      unlock (service (λ w. k.dma_buf_put b w) (λ w. done (slot (err ebusy))))
  register_slot (some i) p b fd fmt = finish (bind_slot p i b fd fmt) (slot (ok i))

  unfoldable pub register_buffer : Result ℕ → ℤ → Format → Thread
  unfolding register_slot
  register_buffer (err e) fd fmt = done (slot (err e))
  register_buffer (ok b) fd fmt =
      lock (read λ p. register_slot (find_unbound p.nslots 0 p.slot) p b fd fmt)

  unfoldable pub register : ℤ → Format → Thread
  unfolding register_buffer
  register fd fmt =
      if ltb_ℤ fd (pos 0) then done (slot (err einval)) else elim (format_validate fmt) [
        | ok _ ↦
            service (λ w. (k.dma_buf_get fd w).1)
              (λ w. register_buffer (k.dma_buf_get fd w).0 fd fmt)
        | err e ↦ done (slot (err e))
      ]

  unfoldable pub unregister_slot : ℕ → Pool → Thread
  unfolding put_if
  unregister_slot i p =
      let s = slot_at p.slot i in
      if leb p.nslots i
      then finish (reject_unknown p) (Reply.done (err enoent))
      else if is_filled s.state || is_held s.state
      then finish (reject_busy p) (Reply.done (err ebusy))
      else if is_unbound s.state
      then unlock (done (Reply.done (err einval)))
      else service (λ w. put_if k s.dbuf w)
          (λ w. finish (record p { slot = set p.slot i (unregistered s) }) (Reply.done (ok tt)))

  unfoldable pub unregister : ℕ → Thread
  unfolding unregister_slot
  unregister i = lock (read λ p. unregister_slot i p)

  unfoldable pub submit_slot : (slot seq : ℕ) → ℤ → (rot flags : ℕ) → Pool → Thread
  submit_slot i seq t rot flags p =
      let s = slot_at p.slot i in
      if leb p.nslots i || is_unbound s.state
      then finish (reject_unknown p) (Reply.done (err enoent))
      else if not (is_idle s.state)
      then finish (reject_busy p) (Reply.done (err ebusy))
      else if leb seq p.last_submitted_seq
      then finish (reject_unknown p) (Reply.done (err einval))
      else finish
          (record p {
            slot = set p.slot i (submitted p s seq t rot flags);
            last_submitted_seq = seq;
            stats = record (p.stats) { submitted = inc64 p.stats.submitted };
          })
          (Reply.done (ok tt))

  unfoldable pub submit : (slot seq : ℕ) → ℤ → (rot flags : ℕ) → Thread
  unfolding submit_slot
  submit i seq t rot flags = lock (read λ p. submit_slot i seq t rot flags p)

  -- The end of `take`, which returns to `ret`.
  unfoldable pub take_hold : Option ℕ → Pool → ℕ → (Result Taken → Thread) → Thread
  take_hold ref p i ret =
      write (hold p i)
        (unlock (ret (ok (record { seq = (slot_at p.slot i).seq; slot = i; ref = ref }))))

  unfoldable pub take_got : Result ℕ → Pool → ℕ → (Result Taken → Thread) → Thread
  unfolding take_hold
  take_got (err e) p i ret = unlock (ret (err e))
  take_got (ok b) p i ret = take_hold (some b) p i ret

  unfoldable pub take_in_range : Bool → Pool → ℕ → (Result Taken → Thread) → Thread
  unfolding take_got take_hold
  take_in_range true p i ret =
      service (λ w. (k.dma_buf_get (slot_at p.slot i).fd w).1)
        (λ w. take_got (k.dma_buf_get (slot_at p.slot i).fd w).0 p i ret)
  take_in_range false p i ret = take_hold none p i ret

  unfoldable pub take_best : Option ℕ → Bool → Pool → (Result Taken → Thread) → Thread
  unfolding take_in_range
  take_best none take_ref p ret =
      write
        (record p { stats = record (p.stats) { dequeued_empty = inc64 p.stats.dequeued_empty } })
        (unlock (ret (err eagain)))
  take_best (some i) take_ref p ret =
      elim (range_decide p.range_end_ns p.loop (slot_at p.slot i).timestamp_ns) [
        | drop ↦ write (dropped p i) (unlock (ret (err eagain)))
        | deliver ↦ write (count_wrap p i) (take_in_range take_ref (count_wrap p i) i ret)
        | wrap ↦ write (count_wrap p i) (take_in_range take_ref (count_wrap p i) i ret)
      ]

  unfoldable pub take : Bool → (Result Taken → Thread) → Thread
  unfolding take_best
  take take_ref ret = lock (read λ p. take_best (oldest p) take_ref p ret)

  unfoldable pub acquire : Thread
  unfolding take
  acquire = take true λ r. done (buffer (acquire_out r))

  -- The reads of the slot after `take` has returned are outside the critical section.
  unfoldable pub dequeue_read : Result Taken → Thread
  dequeue_read (err e) = done (frame (err e))
  dequeue_read (ok t) = read λ p. done (frame (dequeue_out p (ok t)))

  unfoldable pub dequeue : Thread
  unfolding take dequeue_read
  dequeue = take false dequeue_read

  unfoldable pub release_slot : Option ℕ → Pool → Thread
  release_slot none p = finish (reject_unknown p) (Reply.done (err esrch))
  release_slot (some i) p =
      finish
        (record p {
          slot = set p.slot i (record (slot_at p.slot i) { state = idle });
          active_seq = 0;
          stats = record (p.stats) { released = inc64 p.stats.released };
        })
        (Reply.done (ok tt))

  unfoldable pub release : ℕ → Thread
  unfolding release_slot
  release seq = lock (read λ p. release_slot (find_held p.nslots 0 p.slot seq) p)

  unfoldable pub peek : Thread
  peek = lock (
      read λ p. elim (oldest p) [
        | none ↦ unlock (done (peeked (err eagain)))
        | some i ↦ unlock (done (peeked (ok ((slot_at p.slot i).dbuf, (slot_at p.slot i).seq))))
      ])

  unfoldable pub set_range : Range → Thread
  set_range range =
      if not (eqb_ℤ range.end_ns to_end) && ltb_ℤ range.end_ns range.begin_ns
      then done (Reply.done (err einval))
      else if ltb_ℤ range.begin_ns (pos 0)
      then done (Reply.done (err einval))
      else lock (
          read λ p.
            finish
              (record p {
                range_begin_ns = range.begin_ns;
                range_end_ns = range.end_ns;
                loop = if range.loop == 0 then 0 else 1;
              })
              (Reply.done (ok tt)))

  unfoldable pub set_pose : Pose → Thread
  set_pose pose =
      if has_flag pose.flags unknown_flags
      then done (Reply.done (err einval))
      else lock (read λ p. finish (record p { pose = pose }) (Reply.done (ok tt)))

  unfoldable pub set_backend : ℕ → Thread
  set_backend b =
      if not (b == backend_bridge) && not (b == backend_pipeline)
      then done (Reply.done (err einval))
      else lock (read λ p. finish (record p { backend = b }) (Reply.done (ok tt)))

  -- The program of a call.
  unfoldable pub program : Call → Thread
  unfolding register unregister submit acquire dequeue release peek set_range set_pose set_backend
  program (Call.register fd fmt) = register fd fmt
  program (Call.unregister i) = unregister i
  program (Call.submit i seq t rot flags) = submit i seq t rot flags
  program Call.acquire = acquire
  program Call.dequeue = dequeue
  program (Call.release seq) = release seq
  program Call.peek = peek
  program Call.poll = lock (read λ p. finish (poll p).1 (polled (poll p).0))
  program (Call.set_range r) = set_range r
  program (Call.set_pose r) = set_pose r
  program (Call.set_backend b) = set_backend b
  program Call.attach =
      lock (read λ p. finish (record p { client_attached = 1 }) (Reply.done (ok tt)))
  program Call.get_stats = lock (read λ p. unlock (done (counted p.stats)))
