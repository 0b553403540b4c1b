-- ===== src/Pool/Fifo/Order.antt =====
-- The order in which frames leave the pool of src/vcam_pool.c.
use mathlib.Core.List.{append-nil, append_assoc}
use vcam_kmod.Base.{
  ℕ, ◌<◌, ◌≡◌, ◌⊎◌, ◌∙◌, inl, inr, refl, sym, ap, arith, true, false, List, [], ◌∷◌, ◌++◌, length,
}
use vcam_kmod.Kernel.{Kernel}
use vcam_kmod.Logic.Range.{drop, range_decide}
use vcam_kmod.Pool.State.{Pool, Slot, slot_at, is_filled}
use vcam_kmod.Pool.Step.{Call, Reply, step, run, accepted, delivered}
use vcam_kmod.Pool.Invariant.Defs.{IsValid}
use vcam_kmod.Pool.Safety.{step-IsValid}
use vcam_kmod.Pool.Change.Defs.{
  Change, Writes, IsOldest, keep, bind, unbind, fill, discard, hand_out, give_back,
}
use vcam_kmod.Pool.Change.Keeps.{PoolSlots}
use vcam_kmod.Pool.Change.Step.{step-Change}
use mathlib.Core.List.{map, map-append}
use vcam_kmod.Pool.Fifo.Pending.{
  pending, waiting, waiting-set_other, waiting-set_fill, waiting-set_take,
}

abbrev seq_of : Slot → ℕ
seq_of s = s.seq

-- The play range excludes the oldest frame, with looping off.
pub record IsLate (p : Pool) (lost : List ℕ) : Type 0 where
  pub slot : ℕ
  pub oldest : IsOldest p slot
  pub late : range_decide p.range_end_ns p.loop (slot_at p.slot slot).timestamp_ns ≡ drop
  pub only : lost ≡ (slot_at p.slot slot).seq ∷ []

-- What a call adds goes to the end of the queue; what it delivers, or loses, is the front.
pub record Passes (c : Call) (r : Reply) (p q : Pool) : Type 0 where
  pub lost : List ℕ
  pub balance : pending p.slot ++ accepted c r ≡ (lost ++ delivered c r) ++ pending q.slot
  pub cause : (lost ≡ []) ⊎ IsLate p lost

module _ {p q : Pool} (v : PoolSlots p) where
  open v use {size, count, each, spare, unique}

  pub in_list : {i : ℕ} {s : Slot} → Writes p q i s → i < length p.slot
  in_list w = omega (arith, w.in_range, size, count)

  pub waiting-other :
      {i : ℕ} {s : Slot}
      → Writes p q i s
      → is_filled (slot_at p.slot i).state ≡ false
      → is_filled s.state ≡ false
      → waiting q.slot ≡ waiting p.slot
  waiting-other {i} {s} w old new = rw w.slot (waiting-set_other p.slot i s old new)

  pub waiting-take :
      {i : ℕ} {s : Slot}
      → IsOldest p i
      → Writes p q i s
      → is_filled s.state ≡ false
      → waiting p.slot ≡ slot_at p.slot i ∷ waiting q.slot
  waiting-take {i} {s} old w new = rw w.slot (
      waiting-set_take p.slot i s (in_list w) (ground (arith, old.is_full)) new
        (λ j ne f. ground (arith, old.is_full, old.least j, spare j, unique i j)))

  -- A frame that is newer than every waiting one.
  pub waiting-fill :
      {i : ℕ} {s : Slot}
      → Writes p q i s
      → is_filled (slot_at p.slot i).state ≡ false
      → is_filled s.state ≡ true
      → p.last_submitted_seq < s.seq
      → waiting q.slot ≡ waiting p.slot ++ s ∷ []
  waiting-fill {i} {s} w old new top =
      rw w.slot (waiting-set_fill p.slot i s (in_list w) old new (λ j f. ground (arith, each j)))

  pending-other :
      {i : ℕ} {s : Slot}
      → Writes p q i s
      → is_filled (slot_at p.slot i).state ≡ false
      → is_filled s.state ≡ false
      → pending q.slot ≡ pending p.slot
  unfolding pending
  pending-other w old new = ap (map seq_of) (waiting-other w old new)

  pending-take :
      {i : ℕ} {s : Slot}
      → IsOldest p i
      → Writes p q i s
      → is_filled s.state ≡ false
      → pending p.slot ≡ (slot_at p.slot i).seq ∷ pending q.slot
  unfolding pending
  pending-take old w new = ap (map seq_of) (waiting-take old w new)

  pending-fill :
      {i : ℕ} {s : Slot}
      → Writes p q i s
      → is_filled (slot_at p.slot i).state ≡ false
      → is_filled s.state ≡ true
      → p.last_submitted_seq < s.seq
      → pending q.slot ≡ pending p.slot ++ s.seq ∷ []
  unfolding pending
  pending-fill {s = s} w old new top =
      ap (map seq_of) (waiting-fill w old new top) ∙ map-append seq_of (waiting p.slot) (s ∷ [])

  quiet :
      {c : Call} {r : Reply}
      → pending q.slot ≡ pending p.slot
      → accepted c r ≡ []
      → delivered c r ≡ []
      → Passes c r p q
  quiet e a d = record {
    lost = [];
    balance = rw (e, a, d) (append-nil (pending p.slot));
    cause = inl refl;
  }

  Change-Passes : {c : Call} {r : Reply} → Change c r p q → Passes c r p q
  Change-Passes (keep e s t) = quiet (rw e) t.0 t.1
  Change-Passes (bind i b fd fmt c e good w s t) =
      quiet (pending-other w (ground (arith, e)) refl) t.0 t.1
  Change-Passes (unbind i c e w s t) = quiet (pending-other w (ground (arith, e)) refl) t.0 t.1
  Change-Passes (give_back i c e w s t) = quiet (pending-other w (ground (arith, e)) refl) t.0 t.1
  Change-Passes (fill i n t rot flags c e new w s d tr) = record {
    lost = [];
    balance = rw (tr.0, tr.1) (sym (pending-fill w (ground (arith, e)) refl new));
    cause = inl refl;
  }
  Change-Passes (discard i b c old late w s t) = record {
    lost = (slot_at p.slot i).seq ∷ [];
    balance = rw (t.0, t.1) (append-nil (pending p.slot) ∙ pending-take old w refl);
    cause = inr (record { slot = i; oldest = old; late = late; only = refl });
  }
  Change-Passes (hand_out i b c old w s d t) = record {
    lost = [];
    balance = rw (t.0, t.1) (append-nil (pending p.slot) ∙ pending-take old w refl);
    cause = inl refl;
  }

-- Two lists woven into one, each in its order.
pub data Weaves : List ℕ → List ℕ → List ℕ → Type 0 where
  end : Weaves [] [] []
  left : {xs ys zs : List ℕ} (x : ℕ) → Weaves xs ys zs → Weaves (x ∷ xs) ys (x ∷ zs)
  right : {xs ys zs : List ℕ} (y : ℕ) → Weaves xs ys zs → Weaves xs (y ∷ ys) (y ∷ zs)

Weaves-append :
    (ls bs : List ℕ) {xs ys zs : List ℕ}
    → Weaves xs ys zs
    → Weaves (ls ++ xs) (bs ++ ys) ((ls ++ bs) ++ zs)
Weaves-append [] [] w = w
Weaves-append [] (b ∷ bs) w = right b (Weaves-append [] bs w)
Weaves-append (a ∷ ls) bs w = left a (Weaves-append ls bs w)

pub splice :
    (ps ins more ls ms gs ns : List ℕ)
    → ps ++ ins ≡ ls ++ ms
    → ms ++ more ≡ gs ++ ns
    → ps ++ (ins ++ more) ≡ (ls ++ gs) ++ ns
splice ps ins more ls ms gs ns e f =
    sym (append_assoc ps ins more)
    ∙ ap (λ t. t ++ more) e
    ∙ append_assoc ls ms more
    ∙ ap (λ t. ls ++ t) f
    ∙ sym (append_assoc ls gs ns)

-- The frames that a history adds and delivers.
abbrev pub all_accepted : List (Call × Reply) → List ℕ
all_accepted [] = []
all_accepted ((c, r) ∷ tr) = accepted c r ++ all_accepted tr

abbrev pub all_delivered : List (Call × Reply) → List ℕ
all_delivered [] = []
all_delivered ((c, r) ∷ tr) = delivered c r ++ all_delivered tr

-- A history from pool `p` to `q`: what waited and what came is what left and what waits, in order,
-- and what left was delivered or lost.
pub record History (p q : Pool) (tr : List (Call × Reply)) : Type 0 where
  pub gone : List ℕ
  pub lost : List ℕ
  pub balance : pending p.slot ++ all_accepted tr ≡ gone ++ pending q.slot
  pub woven : Weaves lost (all_delivered tr) gone

module _ (k : Kernel) where
  -- In a valid pool, a frame that a call adds goes to the end of the queue, and what it delivers or
  -- loses is the front; it loses nothing, or the oldest frame, which then is past the end of the
  -- range with looping off.
  pub step-Passes :
      (p : Pool) (v : IsValid p) (c : Call) (w : k.World)
      → Passes c (step k c p w).0 p (step k c p w).1
  step-Passes p v c w = Change-Passes v.pool (step-Change k c p w)

  -- From a valid pool, through any calls: the frames that waited, followed by those accepted, are
  -- the frames that left, followed by those that wait, in order; and those that left are the frames
  -- delivered and the frames lost, woven into one list, each in order.
  pub run-History :
      (cs : List (Call × k.World)) (p : Pool) → IsValid p → History p (run k cs p).1 (run k cs p).0
  unfolding run
  run-History [] p v = record { gone = []; lost = []; balance = append-nil _; woven = end }
  run-History ((c, w) ∷ cs) p v =
      let q = (step k c p w).1 in
      let one = step-Passes p v c w in
      let more = run-History cs q (step-IsValid k c w v) in
      record {
        gone = (one.lost ++ delivered c (step k c p w).0) ++ more.gone;
        lost = one.lost ++ more.lost;
        balance = splice _ _ _ _ _ more.gone _ one.balance more.balance;
        woven = Weaves-append one.lost (delivered c (step k c p w).0) more.woven;
      }
