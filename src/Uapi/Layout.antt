-- ===== src/Uapi/Layout.antt =====
-- The sizes of the structures of include/vcam_uapi.h, as C lays them out on a 64-bit machine:
-- each member at the next multiple of its alignment, the whole rounded up to the largest one.
use vcam_kmod.Base.{ℕ, ◌+◌, ◌-◌, ◌*◌, ◌/◌, List, [], ◌∷◌, replicate}
use vcam_kmod.Uapi.{Struct, version, frame, u32, dequeue, u64, range, pose, stats, poll}
use Prim.Native.Nat.{max}

abbrev round_up : ℕ → ℕ → ℕ
round_up n a = (n + a - 1) / a * a

-- The offset behind the members, from the offset before them.
abbrev place : ℕ → List ℕ → ℕ
place offset [] = offset
place offset (m ∷ ms) = place (round_up offset m + m) ms

abbrev alignment : List ℕ → ℕ
alignment [] = 1
alignment (m ∷ ms) = max m (alignment ms)

abbrev pub size_of_members : List ℕ → ℕ
size_of_members ms = round_up (place 0 ms) (alignment ms)

-- A format: four scalars and three planes of two.
abbrev pub format_members : List ℕ
format_members = replicate 10 4

-- The scalar members of each type, by size, which is also their alignment. A frame ends in its
-- format.
abbrev pub members : Struct → List ℕ
members version = replicate 4 4
members frame = 4 ∷ 4 ∷ 4 ∷ 4 ∷ 4 ∷ 8 ∷ 8 ∷ format_members
members u32 = 4 ∷ []
members dequeue = 8 ∷ replicate 4 4
members u64 = 8 ∷ []
members range = 8 ∷ 8 ∷ 4 ∷ 4 ∷ []
members pose = replicate 4 4
members stats = replicate 9 8
members poll = replicate 4 4

abbrev pub size_of : Struct → ℕ
size_of s = size_of_members (members s)
