-- ===== src/Pool/Change/Defs.antt =====
-- The changes of the slots, as a relation between the pool before and after an operation.
use vcam_kmod.Base.{ℕ, ◌≤◌, ◌<◌, ◌≡◌, Bool, true, false, List, [], ◌∷◌, set}
use vcam_kmod.Base.Int.{ℤ}
use vcam_kmod.Uapi.{Format}
use vcam_kmod.Kernel.{ok}
use vcam_kmod.Logic.Format.{format_validate}
use vcam_kmod.Logic.Range.{drop, range_decide}
use vcam_kmod.Pool.State.{Pool, Slot, unbound, idle, filled, held, slot_at}
use vcam_kmod.Pool.Step.{
  Call, register, unregister, submit, acquire, dequeue, release, Reply, accepted, delivered,
}
use vcam_kmod.Pool.Producer.{registered, unregistered, submitted}

-- The numbers beside the slots stay.
pub record SameSeqs (p q : Pool) : Type 0 where
  pub nslots : q.nslots ≡ p.nslots
  pub submitted : q.last_submitted_seq ≡ p.last_submitted_seq
  pub dequeued : q.last_dequeued_seq ≡ p.last_dequeued_seq

-- Slot `i` is the oldest filled one.
pub record IsOldest (p : Pool) (i : ℕ) : Type 0 where
  pub in_range : i < p.nslots
  pub is_full : (slot_at p.slot i).state ≡ filled
  pub least :
      (j : ℕ)
      → j < p.nslots
      → (slot_at p.slot j).state ≡ filled
      → (slot_at p.slot i).seq ≤ (slot_at p.slot j).seq

-- Slot `i` becomes `s`.
pub record Writes (p q : Pool) (i : ℕ) (s : Slot) : Type 0 where
  pub in_range : i < p.nslots
  pub nslots : q.nslots ≡ p.nslots
  pub slot : q.slot ≡ set p.slot i s

-- The call that takes a frame, with a reference or without.
abbrev pub taker : Bool → Call
taker true = acquire
taker false = dequeue

-- The frames that the call and its reply add and deliver.
abbrev pub Trace : Call → Reply → List ℕ → List ℕ → Type 0
Trace c r ins outs = (accepted c r ≡ ins) × (delivered c r ≡ outs)

-- The change that call `c` makes, where it answers `r`.
pub data Change (c : Call) (r : Reply) (p q : Pool) : Type 0 where
  keep : q.slot ≡ p.slot → SameSeqs p q → Trace c r [] [] → Change c r p q
  bind :
      (i b : ℕ) (fd : ℤ) (fmt : Format)
      → c ≡ register fd fmt
      → (slot_at p.slot i).state ≡ unbound
      → format_validate fmt ≡ ok tt
      → Writes p q i (registered (slot_at p.slot i) b fd fmt)
      → SameSeqs p q
      → Trace c r [] []
      → Change c r p q
  unbind :
      (i : ℕ)
      → c ≡ unregister i
      → (slot_at p.slot i).state ≡ idle
      → Writes p q i (unregistered (slot_at p.slot i))
      → SameSeqs p q
      → Trace c r [] []
      → Change c r p q
  fill :
      (i seq : ℕ) (timestamp_ns : ℤ) (rotation_deg flags : ℕ)
      → c ≡ submit i seq timestamp_ns rotation_deg flags
      → (slot_at p.slot i).state ≡ idle
      → p.last_submitted_seq < seq
      → Writes p q i (submitted p (slot_at p.slot i) seq timestamp_ns rotation_deg flags)
      → q.last_submitted_seq ≡ seq
      → q.last_dequeued_seq ≡ p.last_dequeued_seq
      → Trace c r (seq ∷ []) []
      → Change c r p q
  discard :
      (i : ℕ) (take_ref : Bool)
      → c ≡ taker take_ref
      → IsOldest p i
      → range_decide p.range_end_ns p.loop (slot_at p.slot i).timestamp_ns ≡ drop
      → Writes p q i (record (slot_at p.slot i) { state = idle; seq = 0 })
      → SameSeqs p q
      → Trace c r [] []
      → Change c r p q
  hand_out :
      (i : ℕ) (take_ref : Bool)
      → c ≡ taker take_ref
      → IsOldest p i
      → Writes p q i (record (slot_at p.slot i) { state = held })
      → q.last_submitted_seq ≡ p.last_submitted_seq
      → q.last_dequeued_seq ≡ (slot_at p.slot i).seq
      → Trace c r [] ((slot_at p.slot i).seq ∷ [])
      → Change c r p q
  give_back :
      (i : ℕ)
      → c ≡ release (slot_at p.slot i).seq
      → (slot_at p.slot i).state ≡ held
      → Writes p q i (record (slot_at p.slot i) { state = idle })
      → SameSeqs p q
      → Trace c r [] []
      → Change c r p q
