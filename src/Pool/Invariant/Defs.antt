-- ===== src/Pool/Invariant/Defs.antt =====
-- The invariant of the pool.
use vcam_kmod.Base.{ℕ, ◌≤◌, ◌<◌, ◌≡◌, ◌⊎◌, Bool, true, false, Option, none, some, List, length}
use vcam_kmod.Base.Int.{pos, ◌≤ℤ◌}
use vcam_kmod.Kernel.{ok}
use vcam_kmod.Logic.Range.{to_end}
use vcam_kmod.Logic.Format.{format_validate}
use vcam_kmod.Logic.Pose.{has_flag}
use vcam_kmod.Pool.Control.{unknown_flags}
use vcam_kmod.Pool.State.{
  Pool, Slot, SlotState, unbound, filled, held, is_unbound, is_filled, is_held, slot_at, max_slots,
}

abbrev pub is_null {ℓ} : {A : Type ℓ} → Option A → Bool
is_null none = true
is_null (some _) = false

-- A frame is in the slot.
abbrev pub is_live : SlotState → Bool
is_live filled = true
is_live held = true
is_live _ = false

-- One slot: a buffer is there unless the slot is unbound, its geometry has passed, a waiting frame
-- is newer than the last one taken, a held one is not, and the pose handed out is in range.
pub record IsSlot (submitted dequeued : ℕ) (s : Slot) : Type 0 where
  pub null_iff : is_null s.dbuf ≡ is_unbound s.state
  pub geometry : (s.state ≡ unbound) ⊎ (format_validate s.fmt ≡ ok tt)
  pub waiting : is_filled s.state ≡ true → (dequeued < s.seq) × (s.seq ≤ submitted)
  pub taken : is_held s.state ≡ true → (0 < s.seq) × (s.seq ≤ dequeued)
  pub angle : s.resolved_angle < 360
  pub mirror : s.resolved_mirror ≤ 1

-- The slots: no two frames share a number, and the slots beyond `nslots` stay unbound.
pub record IsSlots (slots : List Slot) (nslots submitted dequeued : ℕ) : Type 0 where
  pub size : length slots ≡ max_slots
  pub count : (0 < nslots) × (nslots ≤ max_slots)
  pub each : (i : ℕ) → IsSlot submitted dequeued (slot_at slots i)
  pub spare : (i : ℕ) → nslots ≤ i → (slot_at slots i).state ≡ unbound
  pub unique :
      (i j : ℕ)
      → is_live (slot_at slots i).state ≡ true
      → is_live (slot_at slots j).state ≡ true
      → (slot_at slots i).seq ≡ (slot_at slots j).seq
      → i ≡ j
  pub order : dequeued ≤ submitted

-- The settings.
pub record IsControl (p : Pool) : Type 0 where
  pub range_in : (p.range_end_ns ≡ to_end) ⊎ (p.range_begin_ns ≤ℤ p.range_end_ns)
  pub begin_in : pos 0 ≤ℤ p.range_begin_ns
  pub loop_in : p.loop ≤ 1
  pub backend_in : p.backend ≤ 1
  pub attached_in : p.client_attached ≤ 1
  pub pose_in : has_flag p.pose.flags unknown_flags ≡ false

pub record IsValid (p : Pool) : Type 0 where
  pub pool : IsSlots p.slot p.nslots p.last_submitted_seq p.last_dequeued_seq
  pub control : IsControl p
