-- ===== src/Threads/System.antt =====
-- The threads, the pool and its mutex: one step of one thread at a time, in any order.
use vcam_kmod.Base.{ℕ, Bool, true, false, Option, none, some, List, [], ◌∷◌, ◌==◌, if◌then◌else◌}
use vcam_kmod.Kernel.{Kernel}
use vcam_kmod.Pool.State.{Pool}
use vcam_kmod.Pool.Step.{Call}
use vcam_kmod.Threads.Prog.{done, lock, unlock, read, write, service}
use vcam_kmod.Threads.Calls.{program, Thread}

abbrev pub update {ℓ} : {A : Type ℓ} → (ℕ → A) → ℕ → A → ℕ → A
update f i a j = if i == j then a else f j

abbrev pub is_free {ℓ} : {A : Type ℓ} → Option A → Bool
is_free none = true
is_free (some _) = false

module _ (k : Kernel) where
  -- `owner` is the thread that holds the mutex.
  pub record System : Type 0 where
    pub pool : Pool
    pub owner : Option ℕ
    pub world : k.World
    pub thread : ℕ → Thread k

  -- A thread makes a step, or other processes change the machine.
  pub data Event : Type 0 where
    moves : ℕ → Event
    disturbs : k.World → Event

  abbrev pub resume : System → ℕ → Thread k → System
  resume s i t = record s { thread = update s.thread i t }

  -- A thread that has returned, or that waits for the mutex, stays as it is.
  unfoldable pub advance : Thread k → ℕ → System → System
  advance (done r) i s = s
  advance (lock t) i s = if is_free s.owner then record (resume s i t) { owner = some i } else s
  advance (unlock t) i s = record (resume s i t) { owner = none }
  advance (read f) i s = resume s i (f s.pool)
  advance (write p t) i s = record (resume s i t) { pool = p }
  advance (service e f) i s = record (resume s i (f s.world)) { world = e s.world }

  unfoldable pub move : Event → System → System
  unfolding advance
  move (moves i) s = advance (s.thread i) i s
  move (disturbs w) s = record s { world = w }

  unfoldable pub play : List Event → System → System
  unfolding move
  play [] s = s
  play (e ∷ es) s = play es (move e s)

  -- Thread `i` calls `calls i`.
  abbrev pub start : (ℕ → Call) → Pool → k.World → System
  start calls p w = record { pool = p; owner = none; world = w; thread = λ i. program k (calls i) }
