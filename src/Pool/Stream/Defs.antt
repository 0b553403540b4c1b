-- ===== src/Pool/Stream/Defs.antt =====
-- What include/vcam_kmod.h promises of the pool, without its slots: a stream of frames.
use vcam_kmod.Base.{ℕ, ◌+◌, ◌≡◌, ◌≢◌, ◌⊎◌, ◌==◌, Option, none, List, [], ◌∷◌, ◌++◌, if◌then◌else◌}
use mathlib.Core.List.{map}
use vcam_kmod.Base.Int.{ℤ}
use vcam_kmod.Uapi.{Pose}
use vcam_kmod.Kernel.{ok, err, one_at}
use vcam_kmod.Logic.Pose.{pose_apply}
use vcam_kmod.Logic.Range.{range_decide, drop}
use vcam_kmod.Pool.State.{Pool, Slot, is_held, slot_at}
use vcam_kmod.Pool.Step.{
  Call, register, unregister, submit, acquire, dequeue, release, peek, set_range, set_pose, Reply,
  done, slot, buffer, frame, peeked,
}
use vcam_kmod.Pool.Fifo.Pending.{waiting}

-- A frame that waits, with the pose that it has been given.
pub record Waiting : Type 0 where
  pub seq : ℕ
  pub timestamp_ns : ℤ
  pub angle : ℕ
  pub mirror : ℕ
  pub buffer : Option ℕ

-- The frames in the order of delivery, how many frames with a number are with the consumer, the
-- buffer of each slot, and the settings that matter for the frames.
pub record Stream : Type 0 where
  pub queue : List Waiting
  pub held : ℕ → ℕ
  pub buffer : ℕ → Option ℕ
  pub pose : Pose
  pub end_ns : ℤ
  pub loop : ℕ

-- The frames and the buffers stay.
pub record Keeps (a b : Stream) : Type 0 where
  pub queue : b.queue ≡ a.queue
  pub held : (n : ℕ) → b.held n ≡ a.held n
  pub buffer : (i : ℕ) → b.buffer i ≡ a.buffer i

-- A new frame goes to the end of the queue, with the pose of the moment and the slot's buffer.
pub record Accepts (i seq : ℕ) (timestamp_ns : ℤ) (a b : Stream) : Type 0 where
  pub bound : a.buffer i ≢ none
  pub queue :
      b.queue
      ≡ a.queue
        ++ record {
          seq = seq;
          timestamp_ns = timestamp_ns;
          angle = (pose_apply a.pose).angle_deg;
          mirror = (pose_apply a.pose).mirror;
          buffer = a.buffer i;
        }
          ∷ []
  pub held : (n : ℕ) → b.held n ≡ a.held n
  pub buffer : (i : ℕ) → b.buffer i ≡ a.buffer i

-- The first frame of the queue, which the range rule does not drop, goes to the consumer.
pub record Hands (f : Waiting) (a b : Stream) : Type 0 where
  pub queue : a.queue ≡ f ∷ b.queue
  pub in_range : range_decide a.end_ns a.loop f.timestamp_ns ≢ drop
  pub held : (n : ℕ) → b.held n ≡ a.held n + one_at f.seq n
  pub buffer : (i : ℕ) → b.buffer i ≡ a.buffer i

-- The first frame of the queue, which the range rule drops, is lost.
pub record Loses (a b : Stream) : Type 0 where
  pub lost : Waiting
  pub queue : a.queue ≡ lost ∷ b.queue
  pub late : range_decide a.end_ns a.loop lost.timestamp_ns ≡ drop
  pub held : (n : ℕ) → b.held n ≡ a.held n
  pub buffer : (i : ℕ) → b.buffer i ≡ a.buffer i

-- The consumer gives a frame back.
pub record Returns (seq : ℕ) (a b : Stream) : Type 0 where
  pub queue : b.queue ≡ a.queue
  pub held : (n : ℕ) → b.held n + one_at seq n ≡ a.held n
  pub buffer : (i : ℕ) → b.buffer i ≡ a.buffer i

-- Slot `i`, which had no buffer, gets one.
pub record Binds (i : ℕ) (a b : Stream) : Type 0 where
  pub free : a.buffer i ≡ none
  pub bound : b.buffer i ≢ none
  pub queue : b.queue ≡ a.queue
  pub held : (n : ℕ) → b.held n ≡ a.held n
  pub buffer : (j : ℕ) → i ≢ j → b.buffer j ≡ a.buffer j

-- Slot `i` loses its buffer.
pub record Unbinds (i : ℕ) (a b : Stream) : Type 0 where
  pub bound : a.buffer i ≢ none
  pub free : b.buffer i ≡ none
  pub queue : b.queue ≡ a.queue
  pub held : (n : ℕ) → b.held n ≡ a.held n
  pub buffer : (j : ℕ) → i ≢ j → b.buffer j ≡ a.buffer j

-- What a call does to the frames and the buffers, by what it answers.
abbrev pub Moves : Call → Reply → Stream → Stream → Type 0
Moves (register _ _) (slot (ok i)) a b = Binds i a b
Moves (unregister i) (done (ok _)) a b = Unbinds i a b
Moves (submit i seq t _ _) (done (ok _)) a b = Accepts i seq t a b
Moves dequeue (frame (ok d)) a b =
    (f : Waiting) × Hands f a b
    × (d.seq ≡ f.seq)
    × (d.resolved_angle_deg ≡ f.angle)
    × (d.resolved_mirror ≡ f.mirror)
Moves dequeue (frame (err _)) a b = (Keeps a b × (a.queue ≡ [])) ⊎ Loses a b
Moves acquire (buffer (ok (seq, _))) a b = (f : Waiting) × Hands f a b × (seq ≡ f.seq)
Moves acquire (buffer (err _)) a b = Keeps a b ⊎ Loses a b
Moves (release seq) (done (ok _)) a b = Returns seq a b
Moves peek (peeked (ok (ref, seq))) a b =
    Keeps a b
    × ((f : Waiting) × (rest : List Waiting) × (a.queue ≡ f ∷ rest)
        × (seq ≡ f.seq)
        × (ref ≡ f.buffer))
Moves peek (peeked (err _)) a b = Keeps a b × (a.queue ≡ [])
Moves _ _ a b = Keeps a b

-- What it does to the settings.
abbrev pub Sets : Call → Reply → Stream → Stream → Type 0
Sets (set_pose pose) (done (ok _)) a b = (b.pose ≡ pose) × (b.end_ns ≡ a.end_ns) × (b.loop ≡ a.loop)
Sets (set_range range) (done (ok _)) a b =
    (b.pose ≡ a.pose) × (b.end_ns ≡ range.end_ns) × (b.loop ≡ (if range.loop == 0 then 0 else 1))
Sets _ _ a b = (b.pose ≡ a.pose) × (b.end_ns ≡ a.end_ns) × (b.loop ≡ a.loop)

abbrev pub Serves : Call → Reply → Stream → Stream → Type 0
Serves c r a b = Moves c r a b × Sets c r a b

-- Calls in order, each with its reply.
abbrev pub Behaves : List (Call × Reply) → Stream → Stream → Type 0
Behaves [] a b = a ≡ b
Behaves ((c, r) ∷ tr) a b = (m : Stream) × Serves c r a m × Behaves tr m b

-- A pool as a stream.
abbrev pub frame_of : Slot → Waiting
frame_of s = record {
  seq = s.seq;
  timestamp_ns = s.timestamp_ns;
  angle = s.resolved_angle;
  mirror = s.resolved_mirror;
  buffer = s.dbuf;
}

abbrev pub queue_of : List Slot → List Waiting
queue_of slots = map frame_of (waiting slots)

abbrev pub held_one : ℕ → Slot → ℕ
held_one n s = if is_held s.state then one_at s.seq n else 0

unfoldable pub held_count : ℕ → List Slot → ℕ
held_count n [] = 0
held_count n (s ∷ ss) = held_one n s + held_count n ss

abbrev pub view : Pool → Stream
view p = record {
  queue = queue_of p.slot;
  held = λ n. held_count n p.slot;
  buffer = λ i. (slot_at p.slot i).dbuf;
  pose = p.pose;
  end_ns = p.range_end_ns;
  loop = p.loop;
}
