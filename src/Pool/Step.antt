-- ===== src/Pool/Step.antt =====
-- The calls that a client of include/vcam_kmod.h can make of the pool, one at a time, in some order.
use vcam_kmod.Base.{ℕ, Option, List, [], ◌∷◌}
use vcam_kmod.Base.Int.{ℤ}
use vcam_kmod.Uapi.{Format, Range, Pose, Poll, Stats, Dequeue}
use vcam_kmod.Kernel.{Kernel, Result, ok}
use vcam_kmod.Pool.State.{Pool}
use vcam_kmod.Pool.Producer
use vcam_kmod.Pool.Consumer
use vcam_kmod.Pool.Control

pub data Call : Type 0 where
  register : ℤ → Format → Call
  unregister : ℕ → Call
  submit : (slot seq : ℕ) (timestamp_ns : ℤ) (rotation_deg flags : ℕ) → Call
  acquire dequeue : Call
  release : ℕ → Call
  peek poll : Call
  set_range : Range → Call
  set_pose : Pose → Call
  set_backend : ℕ → Call
  attach get_stats : Call

pub data Reply : Type 0 where
  done : Result (Unit {0}) → Reply
  slot : Result ℕ → Reply
  buffer : Result (ℕ × Option ℕ) → Reply
  frame : Result Dequeue → Reply
  peeked : Result (Option ℕ × ℕ) → Reply
  polled : Poll → Reply
  counted : Stats → Reply

-- The frame that a call adds to the pool, and the frame that it hands to a consumer.
abbrev pub accepted : Call → Reply → List ℕ
accepted (submit _ seq _ _ _) (done (ok _)) = seq ∷ []
accepted _ _ = []

abbrev pub delivered : Call → Reply → List ℕ
delivered acquire (buffer (ok (seq, _))) = seq ∷ []
delivered dequeue (frame (ok d)) = d.seq ∷ []
delivered _ _ = []

module _ (k : Kernel) where
  -- A call, in the state of the machine that it meets.
  unfoldable pub step : Call → Pool → k.World → Reply × Pool × k.World
  step (register fd fmt) p w = let (r, p', w') = Producer.register k p fd fmt w in (slot r, p', w')
  step (unregister i) p w = let (r, p', w') = Producer.unregister k p i w in (done r, p', w')
  step (submit i seq t rot flags) p w =
      let (r, p') = Producer.submit p i seq t rot flags in (done r, p', w)
  step acquire p w = let (r, p', w') = Consumer.acquire k p w in (buffer r, p', w')
  step dequeue p w = let (r, p', w') = Consumer.dequeue k p w in (frame r, p', w')
  step (release seq) p w = let (r, p') = Consumer.release p seq in (done r, p', w)
  step peek p w = (peeked (Consumer.peek p), p, w)
  step poll p w = let (r, p') = Control.poll p in (polled r, p', w)
  step (set_range range) p w = let (r, p') = Control.set_range p range in (done r, p', w)
  step (set_pose pose) p w = let (r, p') = Control.set_pose p pose in (done r, p', w)
  step (set_backend b) p w = let (r, p') = Control.set_backend p b in (done r, p', w)
  step attach p w = (done (ok tt), Control.attach p, w)
  step get_stats p w = (counted (Control.get_stats p), p, w)

  -- Calls in order, each in a state of the machine that other processes have left: any state.
  -- What comes back is each call with its reply, and the pool.
  unfoldable pub run : List (Call × k.World) → Pool → List (Call × Reply) × Pool
  run [] p = ([], p)
  run ((c, w) ∷ cs) p = let (r, p', _) = step c p w in let (rs, q) = run cs p' in ((c, r) ∷ rs, q)
