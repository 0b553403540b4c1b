-- ===== src/Logic/Range.antt =====
-- The play-range rule of src/vcam_logic.c. It reads two fields of the pool, given here as arguments.
use vcam_kmod.Base.{ℕ, ◌==◌, if◌then◌else◌, not}
use vcam_kmod.Base.Int.{ℤ, negsuc, eqb_ℤ, leb_ℤ}

-- VCAM_RANGE_DELIVER, VCAM_RANGE_WRAP and VCAM_RANGE_DROP.
pub data Decision : Type 0 where
  deliver wrap drop : Decision

-- -1, which stands for the end of the stream.
abbrev pub to_end : ℤ
to_end = negsuc 0

unfoldable pub range_decide : (end_ns : ℤ) (loop : ℕ) (timestamp_ns : ℤ) → Decision
range_decide end_ns loop timestamp_ns =
    if eqb_ℤ end_ns to_end
    then deliver
    else if leb_ℤ timestamp_ns end_ns
    then deliver
    else if not (loop == 0)
    then wrap
    else drop
