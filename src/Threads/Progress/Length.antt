-- ===== src/Threads/Progress/Length.antt =====
-- How many steps a call of src/vcam_pool.c has.
use vcam_kmod.Base.{
  ℕ, suc, Bool, true, false, none, some, Option, not, ◌||◌, ◌&&◌, leb, ◌==◌, if◌then◌else◌,
}
use vcam_kmod.Base.Int.{ℤ, pos, ltb_ℤ, eqb_ℤ}
use vcam_kmod.Uapi.{Format}
use vcam_kmod.Kernel.{Kernel, Result, ok, err, eagain}
use vcam_kmod.Logic.Format.{format_validate}
use vcam_kmod.Logic.Pose.{has_flag}
use vcam_kmod.Logic.Range.{Decision, deliver, wrap, drop, to_end, range_decide}
use vcam_kmod.Pool.State.{
  Pool, is_unbound, is_idle, is_filled, is_held, slot_at, backend_bridge, backend_pipeline,
}
use vcam_kmod.Pool.Consumer.{Taken, dropped, oldest, count_wrap}
use vcam_kmod.Pool.Control.{unknown_flags}
use vcam_kmod.Pool.Step.{Call, Reply, peeked}
use vcam_kmod.Threads.Prog.{done, lock, unlock, read, write, service}
use vcam_kmod.Threads.Calls.{
  Thread, register_slot, register_buffer, register, unregister_slot, unregister, submit_slot,
  submit, take_hold, take_got, take_in_range, take_best, take, dequeue_read, acquire, dequeue,
  release_slot, release, peek, set_range, set_pose, set_backend, program,
}

-- The most steps that a call takes.
abbrev pub longest : ℕ
longest = 6

module _ (k : Kernel) where
  -- At most `n` steps are left, whatever the thread meets.
  pub data Ends : Thread k → ℕ → Type 0 where
    at_done : {r : Reply} {n : ℕ} → Ends (done r) n
    at_lock : {t : Thread k} {n : ℕ} → Ends t n → Ends (lock t) (suc n)
    at_unlock : {t : Thread k} {n : ℕ} → Ends t n → Ends (unlock t) (suc n)
    at_read : {f : Pool → Thread k} {n : ℕ} → ((p : Pool) → Ends (f p) n) → Ends (read f) (suc n)
    at_write : {p : Pool} {t : Thread k} {n : ℕ} → Ends t n → Ends (write p t) (suc n)
    at_service :
        {e : k.World → k.World} {f : k.World → Thread k} {n : ℕ}
        → ((w : k.World) → Ends (f w) n)
        → Ends (service e f) (suc n)

  if-Ends : (b : Bool) (t u : Thread k) (n : ℕ) → Ends t n → Ends u n → Ends (if b then t else u) n
  if-Ends true t u n x y = x
  if-Ends false t u n x y = y

  register_slot-Ends :
      (o : Option ℕ) (p : Pool) (b : ℕ) (fd : ℤ) (fmt : Format)
      → Ends (register_slot k o p b fd fmt) 3
  unfolding register_slot
  register_slot-Ends none p b fd fmt = at_unlock (at_service λ w. at_done)
  register_slot-Ends (some i) p b fd fmt = at_write (at_unlock at_done)

  register_buffer-Ends :
      (r : Result ℕ) (fd : ℤ) (fmt : Format) → Ends (register_buffer k r fd fmt) 5
  unfolding register_buffer
  register_buffer-Ends (err e) fd fmt = at_done
  register_buffer-Ends (ok b) fd fmt = at_lock (at_read λ p. register_slot-Ends _ p b fd fmt)

  register-Ends : (fd : ℤ) (fmt : Format) → Ends (register k fd fmt) longest
  unfolding register
  register-Ends fd fmt = if-Ends _ _ _ _ at_done (valid (format_validate fmt))
    where
      valid :
          (r : Result (Unit {0}))
          → Ends
              (elim r [
                | ok _ ↦
                    service
                      (λ w. (k.dma_buf_get fd w).1)
                      (λ w. register_buffer k (k.dma_buf_get fd w).0 fd fmt)
                | err e ↦ done (Reply.slot (err e))
              ])
              longest
      valid (ok _) = at_service λ w. register_buffer-Ends _ fd fmt
      valid (err e) = at_done

  unregister_slot-Ends : (i : ℕ) (p : Pool) → Ends (unregister_slot k i p) 4
  unfolding unregister_slot
  unregister_slot-Ends i p =
      let s = slot_at p.slot i in
      if-Ends (leb p.nslots i) _ _ _ (at_write (at_unlock at_done)) (
        if-Ends (is_filled s.state || is_held s.state) _ _ _ (at_write (at_unlock at_done)) (
          if-Ends (is_unbound s.state) _ _ _ (at_unlock at_done)
            (at_service λ w. at_write (at_unlock at_done))))

  unregister-Ends : (i : ℕ) → Ends (unregister k i) longest
  unfolding unregister
  unregister-Ends i = at_lock (at_read λ p. unregister_slot-Ends i p)

  submit_slot-Ends :
      (i q : ℕ) (t : ℤ) (rot flags : ℕ) (p : Pool) → Ends (submit_slot k i q t rot flags p) 4
  unfolding submit_slot
  submit_slot-Ends i q t rot flags p =
      let s = slot_at p.slot i in
      if-Ends (leb p.nslots i || is_unbound s.state) _ _ _ (at_write (at_unlock at_done)) (
        if-Ends (not (is_idle s.state)) _ _ _ (at_write (at_unlock at_done)) (
          if-Ends (leb q p.last_submitted_seq) _ _ _ (at_write (at_unlock at_done))
            (at_write (at_unlock at_done))))

  submit-Ends : (i q : ℕ) (t : ℤ) (rot flags : ℕ) → Ends (submit k i q t rot flags) longest
  unfolding submit
  submit-Ends i q t rot flags = at_lock (at_read λ p. submit_slot-Ends i q t rot flags p)

  -- The code after `take` has no step, or one, where no reference is taken.
  abbrev Fits : Bool → (Result Taken → Thread k) → Type 0
  Fits true ret = (r : Result Taken) (n : ℕ) → Ends (ret r) n
  Fits false ret = (r : Result Taken) (n : ℕ) → Ends (ret r) (suc n)

  Fits-step :
      (take_ref : Bool) (ret : Result Taken → Thread k) (r : Result Taken) (n : ℕ)
      → Fits take_ref ret
      → Ends (ret r) (suc n)
  Fits-step true ret r n h = h r (suc n)
  Fits-step false ret r n h = h r n

  take_got-Ends :
      (r : Result ℕ) (p : Pool) (i : ℕ) (ret : Result Taken → Thread k)
      → Fits true ret
      → Ends (take_got k r p i ret) 2
  unfolding take_got take_hold
  take_got-Ends (ok b) p i ret h = at_write (at_unlock (h _ 0))
  take_got-Ends (err e) p i ret h = at_unlock (h _ 1)

  take_in_range-Ends :
      (take_ref : Bool) (p : Pool) (i : ℕ) (ret : Result Taken → Thread k)
      → Fits take_ref ret
      → Ends (take_in_range k take_ref p i ret) 3
  unfolding take_in_range take_hold
  take_in_range-Ends true p i ret h = at_service λ w. take_got-Ends _ p i ret h
  take_in_range-Ends false p i ret h = at_write (at_unlock (h _ 0))

  take_best-Ends :
      (o : Option ℕ) (take_ref : Bool) (p : Pool) (ret : Result Taken → Thread k)
      → Fits take_ref ret
      → Ends (take_best k o take_ref p ret) 4
  unfolding take_best
  take_best-Ends none take_ref p ret h = at_write (at_unlock (Fits-step take_ref ret _ 1 h))
  take_best-Ends (some i) take_ref p ret h =
      decided (range_decide p.range_end_ns p.loop (slot_at p.slot i).timestamp_ns)
    where
      decided :
          (d : Decision)
          → Ends
              (elim d [
                | drop ↦ write (dropped p i) (unlock (ret (err eagain)))
                | deliver ↦ write (count_wrap p i) (take_in_range k take_ref (count_wrap p i) i ret)
                | wrap ↦ write (count_wrap p i) (take_in_range k take_ref (count_wrap p i) i ret)
              ])
              4
      decided drop = at_write (at_unlock (Fits-step take_ref ret _ 1 h))
      decided deliver = at_write (take_in_range-Ends take_ref _ i ret h)
      decided wrap = at_write (take_in_range-Ends take_ref _ i ret h)

  take-Ends :
      (take_ref : Bool) (ret : Result Taken → Thread k)
      → Fits take_ref ret
      → Ends (take k take_ref ret) longest
  unfolding take
  take-Ends take_ref ret h = at_lock (at_read λ p. take_best-Ends (oldest p) take_ref p ret h)

  dequeue_read-Fits : Fits false (dequeue_read k)
  unfolding dequeue_read
  dequeue_read-Fits (ok t) n = at_read λ p. at_done
  dequeue_read-Fits (err e) n = at_done

  release_slot-Ends : (o : Option ℕ) (p : Pool) → Ends (release_slot k o p) 4
  unfolding release_slot
  release_slot-Ends none p = at_write (at_unlock at_done)
  release_slot-Ends (some i) p = at_write (at_unlock at_done)

  peek_slot-Ends :
      (o : Option ℕ) (p : Pool)
      → Ends
          (elim o [
            | none ↦ unlock (done (peeked (err eagain)))
            | some i ↦ unlock (done (peeked (ok ((slot_at p.slot i).dbuf, (slot_at p.slot i).seq))))
          ])
          4
  peek_slot-Ends none p = at_unlock at_done
  peek_slot-Ends (some i) p = at_unlock at_done

  pub program-Ends : (c : Call) → Ends (program k c) longest
  unfolding program acquire dequeue release peek set_range set_pose set_backend
  program-Ends (Call.register fd fmt) = register-Ends fd fmt
  program-Ends (Call.unregister i) = unregister-Ends i
  program-Ends (Call.submit i q t rot flags) = submit-Ends i q t rot flags
  program-Ends Call.acquire = take-Ends true _ (λ r n. at_done)
  program-Ends Call.dequeue = take-Ends false _ dequeue_read-Fits
  program-Ends (Call.release q) = at_lock (at_read λ p. release_slot-Ends _ p)
  program-Ends Call.peek = at_lock (at_read λ p. peek_slot-Ends _ p)
  program-Ends Call.poll = at_lock (at_read λ p. at_write (at_unlock at_done))
  program-Ends (Call.set_range r) =
      if-Ends (not (eqb_ℤ r.end_ns to_end) && ltb_ℤ r.end_ns r.begin_ns) _ _ _ at_done (
        if-Ends (ltb_ℤ r.begin_ns (pos 0)) _ _ _ at_done
          (at_lock (at_read λ p. at_write (at_unlock at_done))))
  program-Ends (Call.set_pose r) =
      if-Ends (has_flag r.flags unknown_flags) _ _ _ at_done
        (at_lock (at_read λ p. at_write (at_unlock at_done)))
  program-Ends (Call.set_backend b) =
      if-Ends (not (b == backend_bridge) && not (b == backend_pipeline)) _ _ _ at_done
        (at_lock (at_read λ p. at_write (at_unlock at_done)))
  program-Ends Call.attach = at_lock (at_read λ p. at_write (at_unlock at_done))
  program-Ends Call.get_stats = at_lock (at_read λ p. at_unlock at_done)
