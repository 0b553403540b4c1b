-- ===== src/Pool/Stream/Writes.antt =====
-- A write of one slot of src/vcam_pool.c, as a change of the stream.
use vcam_kmod.Base.{
  ℕ, zero, suc, ◌+◌, ◌<◌, ◌≡◌, ◌≢◌, ◌∙◌, refl, ap, arith, List, [], ◌∷◌, set, length, if◌then◌else◌,
  ◌==◌,
}
use mathlib.Core.List.{map, map-append}
use vcam_kmod.Base.Int.{ℤ}
use vcam_kmod.Uapi.{Format}
use vcam_kmod.Logic.Range.{range_decide, drop}
use vcam_kmod.Pool.State.{Pool, Slot, unbound, idle, held, slot_at}
use vcam_kmod.Pool.Producer.{registered, unregistered, submitted}
use vcam_kmod.Pool.Invariant.Write.{slot_at-set}
use vcam_kmod.Pool.Change.Defs.{Writes, IsOldest}
use vcam_kmod.Pool.Change.Keeps.{PoolSlots}
use vcam_kmod.Pool.Fifo.Order.{waiting-other, waiting-take, waiting-fill}
use vcam_kmod.Pool.Stream.Defs.{
  Keeps, Accepts, Hands, Loses, Returns, Binds, Unbinds, frame_of, queue_of, held_one, held_count,
  view,
}

held_count-set :
    (n : ℕ) (slots : List Slot) (i : ℕ) (s : Slot)
    → i < length slots
    → held_count n (set slots i s) + held_one n (slot_at slots i)
      ≡ held_count n slots + held_one n s
unfolding held_count
held_count-set n [] i s h = absurd (omega arith)
held_count-set n (x ∷ xs) zero s h = omega arith
held_count-set n (x ∷ xs) (suc i) s h = omega (arith, held_count-set n xs i s (omega arith))

-- The same slots make the same stream, but for the settings.
pub Keeps-slots : (p q : Pool) → q.slot ≡ p.slot → Keeps (view p) (view q)
Keeps-slots p q e = record {
  queue = ap queue_of e;
  held = λ n. ap (held_count n) e;
  buffer = λ i. ap (λ t. (slot_at t i).dbuf) e;
}

module _ (p q : Pool) (v : PoolSlots p) {i : ℕ} where
  module _ {s : Slot} (w : Writes p q i s) where
    held-written :
        (n : ℕ)
        → held_count n q.slot + held_one n (slot_at p.slot i) ≡ held_count n p.slot + held_one n s
    held-written n =
        rw w.slot (held_count-set n p.slot i s (omega (arith, w.in_range, v.size, v.count)))

    read : (j : ℕ) → slot_at q.slot j ≡ (if i == j then s else slot_at p.slot j)
    read j = ap (λ t. slot_at t j) w.slot ∙ slot_at-set v i w.in_range s j

    buffer-kept :
        s.dbuf ≡ (slot_at p.slot i).dbuf
        → (j : ℕ) → (slot_at q.slot j).dbuf ≡ (slot_at p.slot j).dbuf
    buffer-kept e j = ground (arith, read j)

    buffer-other : (j : ℕ) → i ≢ j → (slot_at q.slot j).dbuf ≡ (slot_at p.slot j).dbuf
    buffer-other j ne = ground (arith, read j)

    buffer-here : (slot_at q.slot i).dbuf ≡ s.dbuf
    buffer-here = ground (arith, read i)

  pub bind-Binds :
      (b : ℕ) (fd : ℤ) (fmt : Format)
      → (slot_at p.slot i).state ≡ unbound
      → Writes p q i (registered (slot_at p.slot i) b fd fmt)
      → Binds i (view p) (view q)
  bind-Binds b fd fmt e w = record {
    free = ground (arith, v.each i);
    bound = λ n. ground (arith, buffer-here w);
    queue = ap (map frame_of) (waiting-other v w (ground (arith, e)) refl);
    held = λ n. ground (arith, e, held-written w n);
    buffer = buffer-other w;
  }

  pub unbind-Unbinds :
      (slot_at p.slot i).state ≡ idle
      → Writes p q i (unregistered (slot_at p.slot i))
      → Unbinds i (view p) (view q)
  unbind-Unbinds e w = record {
    bound = λ n. ground (arith, v.each i);
    free = buffer-here w;
    queue = ap (map frame_of) (waiting-other v w (ground (arith, e)) refl);
    held = λ n. ground (arith, e, held-written w n);
    buffer = buffer-other w;
  }

  pub fill-Accepts :
      (seq : ℕ) (t : ℤ) (rot flags : ℕ)
      → (slot_at p.slot i).state ≡ idle
      → p.last_submitted_seq < seq
      → Writes p q i (submitted p (slot_at p.slot i) seq t rot flags)
      → Accepts i seq t (view p) (view q)
  fill-Accepts seq t rot flags e new w = record {
    bound = λ n. ground (arith, v.each i);
    queue =
        ap (map frame_of) (waiting-fill v w (ground (arith, e)) refl new) ∙ map-append frame_of _ _;
    held = λ n. ground (arith, e, held-written w n);
    buffer = buffer-kept w refl;
  }

  pub hold-Hands :
      IsOldest p i
      → range_decide p.range_end_ns p.loop (slot_at p.slot i).timestamp_ns ≢ drop
      → Writes p q i (record (slot_at p.slot i) { state = held })
      → Hands (frame_of (slot_at p.slot i)) (view p) (view q)
  hold-Hands old r w = record {
    queue = ap (map frame_of) (waiting-take v old w refl);
    in_range = r;
    held = λ n. ground (arith, old.is_full, held-written w n);
    buffer = buffer-kept w refl;
  }

  pub discard-Loses :
      IsOldest p i
      → range_decide p.range_end_ns p.loop (slot_at p.slot i).timestamp_ns ≡ drop
      → Writes p q i (record (slot_at p.slot i) { state = idle; seq = 0 })
      → Loses (view p) (view q)
  discard-Loses old r w = record {
    lost = frame_of (slot_at p.slot i);
    queue = ap (map frame_of) (waiting-take v old w refl);
    late = r;
    held = λ n. ground (arith, old.is_full, held-written w n);
    buffer = buffer-kept w refl;
  }

  pub give_back-Returns :
      (slot_at p.slot i).state ≡ held
      → Writes p q i (record (slot_at p.slot i) { state = idle })
      → Returns (slot_at p.slot i).seq (view p) (view q)
  give_back-Returns e w = record {
    queue = ap (map frame_of) (waiting-other v w (ground (arith, e)) refl);
    held = λ n. ground (arith, e, held-written w n);
    buffer = buffer-kept w refl;
  }
