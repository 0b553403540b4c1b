-- ===== src/Pool/Lifecycle.antt =====
-- The ownership state machine of src/vcam_pool.c: the states of a slot and the calls between them.
use vcam_kmod.Base.{ℕ, ◌≡◌, ◌≢◌, ◌⊎◌, inl, inr, subst, Bool, ℕ_discrete, ap, sym, ◌∙◌}
use vcam_kmod.Base.Int.{ℤ}
use vcam_kmod.Uapi.{Format}
use vcam_kmod.Kernel.{Kernel}
use vcam_kmod.Pool.State.{Pool, Slot, SlotState, slot_at, unbound, idle, filled, held}
use vcam_kmod.Pool.Step.{Call, step, Reply}
use vcam_kmod.Pool.Invariant.Defs.{IsValid}
use vcam_kmod.Pool.Change.Keeps.{PoolSlots}
use vcam_kmod.Pool.Change.Reads.{Writes-here, Writes-other}
use vcam_kmod.Pool.Change.Defs.{
  Change, Writes, taker, keep, bind, unbind, fill, discard, hand_out, give_back,
}
use vcam_kmod.Pool.Change.Step.{step-Change}

-- The edges of the state machine: which call moves slot `j` from which state to which.
pub data Edge : Call → ℕ → SlotState → SlotState → Type 0 where
  registers : (fd : ℤ) (fmt : Format) (j : ℕ) → Edge (Call.register fd fmt) j unbound idle
  unregisters : (j : ℕ) → Edge (Call.unregister j) j idle unbound
  submits : (j q : ℕ) (t : ℤ) (rot flags : ℕ) → Edge (Call.submit j q t rot flags) j idle filled
  takes : (take_ref : Bool) (j : ℕ) → Edge (taker take_ref) j filled held
  drops : (take_ref : Bool) (j : ℕ) → Edge (taker take_ref) j filled idle
  releases : (q j : ℕ) → Edge (Call.release q) j held idle

-- Slot `j` is untouched, or moves along an edge.
abbrev pub Moves : Call → Pool → Pool → ℕ → Type 0
Moves c p q j =
    (slot_at q.slot j ≡ slot_at p.slot j)
    ⊎ Edge c j (slot_at p.slot j).state (slot_at q.slot j).state

-- Slots in different states are different.
apart :
    (p : Pool) {i j : ℕ} {s t : SlotState}
    → (slot_at p.slot j).state ≡ t
    → s ≢ t
    → (slot_at p.slot i).state ≡ s
    → i ≢ j
apart p h ne e same = ne (sym e ∙ ap (λ n. (slot_at p.slot n).state) same ∙ h)

module _ {p q : Pool} (v : PoolSlots p) where
  Moves-Writes :
      {c : Call} {i : ℕ} {s : Slot}
      → Writes p q i s
      → Edge c i (slot_at p.slot i).state s.state
      → (j : ℕ) → Moves c p q j
  Moves-Writes {c} {i} w e j = elim (ℕ_discrete i j) [
    | yes same ↦ subst (Moves c p q) same (inr (rw (Writes-here v w) e))
    | no other ↦ inl (Writes-other v w j other)
  ]

  Change-Moves : {c : Call} {r : Reply} → Change c r p q → (j : ℕ) → Moves c p q j
  Change-Moves (keep e s _) j = inl (rw e)
  Change-Moves (bind i b fd fmt c e good w s _) j =
      Moves-Writes w (rw (c, e) (registers fd fmt i)) j
  Change-Moves (unbind i c e w s _) j = Moves-Writes w (rw (c, e) (unregisters i)) j
  Change-Moves (fill i n t rot flags c e new w s d _) j =
      Moves-Writes w (rw (c, e) (submits i n t rot flags)) j
  Change-Moves (discard i b c old late w s _) j = Moves-Writes w (rw (c, old.is_full) (drops b i)) j
  Change-Moves (hand_out i b c old w s d _) j = Moves-Writes w (rw (c, old.is_full) (takes b i)) j
  Change-Moves (give_back i c e w s _) j = Moves-Writes w (rw (c, e) (releases _ i)) j

  -- A held slot changes only when its own frame is released.
  Change-held :
      {c : Call} {r : Reply} (j : ℕ)
      → (slot_at p.slot j).state ≡ held
      → c ≢ Call.release (slot_at p.slot j).seq
      → Change c r p q
      → slot_at q.slot j ≡ slot_at p.slot j
  Change-held j h n (keep e s _) = rw e
  Change-held j h n (bind i b fd fmt c e good w s _) = Writes-other v w j (apart p h (λ z. cc) e)
  Change-held j h n (unbind i c e w s _) = Writes-other v w j (apart p h (λ z. cc) e)
  Change-held j h n (fill i m t rot flags c e new w s d _) =
      Writes-other v w j (apart p h (λ z. cc) e)
  Change-held j h n (discard i r c old late w s _) =
      Writes-other v w j (apart p h (λ z. cc) old.is_full)
  Change-held j h n (hand_out i r c old w s d _) =
      Writes-other v w j (apart p h (λ z. cc) old.is_full)
  Change-held {c = d} j h n (give_back i c e w s _) =
      Writes-other v w j (λ same. n (subst (λ t. d ≡ Call.release (slot_at p.slot t).seq) same c))

module _ (k : Kernel) (p : Pool) (v : IsValid p) (w : k.World) where
  -- In a valid pool every call leaves each slot as it is, or moves it along an edge of the state
  -- machine that is that call's: register from unbound to idle, submit from idle to filled, acquire
  -- and dequeue from filled to held (or to idle, for a frame that is dropped), release from held to
  -- idle, unregister from idle to unbound.
  pub step-Moves : (c : Call) (j : ℕ) → Moves c p (step k c p w).1 j
  step-Moves c j = Change-Moves v.pool (step-Change k c p w) j

  -- The tearing guard: in a valid pool, a slot that the consumer holds is left as it is, every
  -- field of it, by any call but the release of its own frame.
  pub step-held :
      (c : Call) (j : ℕ)
      → (slot_at p.slot j).state ≡ held
      → c ≢ Call.release (slot_at p.slot j).seq
      → slot_at (step k c p w).1.slot j ≡ slot_at p.slot j
  step-held c j h n = Change-held v.pool j h n (step-Change k c p w)
