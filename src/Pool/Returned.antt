-- ===== src/Pool/Returned.antt =====
-- `vcam_pool_release` of src/vcam_pool.c on a held slot.
use vcam_kmod.Base.{
  ℕ, zero, suc, ◌+◌, ◌≤◌, ◌<◌, ◌≡◌, ◌≢◌, refl, sym, arith, Option, none, some, List, Option-cases,
  subst, inl, inr,
}
use vcam_kmod.Kernel.{ok}
use vcam_kmod.Pool.State.{Pool, Slot, slot_at, idle, held}
use vcam_kmod.Pool.Consumer.{find_held, release}
use vcam_kmod.Pool.Invariant.Defs.{IsValid}
use vcam_kmod.Pool.Invariant.Find.{find_held-some}
use vcam_kmod.Pool.Invariant.Write.{slot_at-set}

find_held-none :
    (n i : ℕ) (slots : List Slot) (q : ℕ)
    → find_held n i slots q ≡ none
    → (j : ℕ) → i ≤ j
    → j < i + n
    → (slot_at slots j).state ≡ held
    → (slot_at slots j).seq ≢ q
unfolding find_held
find_held-none zero i slots q e j lo hi h = absurd (omega arith)
find_held-none (suc n) i slots q e j lo hi h =
    ground (arith, λ (r : find_held n (i + 1) slots q ≡ none). find_held-none n (i + 1) slots q r j)

-- What the search leads to, when it finds slot `t`.
abbrev Freed : Pool → ℕ → Option ℕ → Type 0
Freed p j o =
    find_held p.nslots 0 p.slot (slot_at p.slot j).seq ≡ o
    → let (r, q) = release p (slot_at p.slot j).seq in
      (r ≡ ok tt)
      × (slot_at q.slot j ≡ record (slot_at p.slot j) { state = idle })
      × ((i : ℕ) → i ≢ j → slot_at q.slot i ≡ slot_at p.slot i)

freed : {p : Pool} {j : ℕ} → IsValid p → (slot_at p.slot j).state ≡ held → Freed p j (some j)
unfolding release
freed {p} {j} v h e =
    let read =
      slot_at-set v.pool j (ground (arith, v.pool.spare j, h))
        (record (slot_at p.slot j) { state = idle }) in
    rw (release, e) (refl, ground (arith, read j), λ i ne. ground (arith, read i))

-- A held frame can always be given back: in a valid pool the release of a held slot's number
-- succeeds, makes that slot idle and changes no other slot.
pub release-held :
    (p : Pool) (j : ℕ)
    → IsValid p
    → (slot_at p.slot j).state ≡ held
    → let (r, q) = release p (slot_at p.slot j).seq in
      (r ≡ ok tt)
      × (slot_at q.slot j ≡ record (slot_at p.slot j) { state = idle })
      × ((i : ℕ) → i ≢ j → slot_at q.slot i ≡ slot_at p.slot i)
unfolding release
release-held p j v h =
    let n = (slot_at p.slot j).seq in
    elim (Option-cases (find_held p.nslots 0 p.slot n)) [
      | inl e ↦ absurd (
          find_held-none p.nslots 0 p.slot n e j (omega arith) (ground (arith, v.pool.spare j, h)) h
            refl)
      | inr (i, e) ↦
          let (_, below, there, numbered) = find_held-some p.nslots 0 p.slot n i e in
          let same : i ≡ j = ground (arith, v.pool.unique i j, h, there, numbered) in
          subst (λ t. Freed p j (some t)) (sym same) (freed v h) e
    ]
