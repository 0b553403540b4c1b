-- ===== src/Logic/Pose.antt =====
-- The pose rule of src/vcam_logic.c.
pub mod Laws
use vcam_kmod.Base.{ℕ, suc, ◌-◌, ◌%◌, Bool, ◌||◌, not, bit_and, ◌==◌, if◌then◌else◌}
use vcam_kmod.Base.Int.{ℤ, pos, negsuc, ◌-ℤ◌, sub_ℕ, wrap_s32}
use vcam_kmod.Uapi.{Pose, f_mirror, f_autopose}

unfoldable pub normalize_explicit_angle : ℕ → ℕ
normalize_explicit_angle deg = if deg == 0 || deg == 90 || deg == 180 || deg == 270 then deg else 0

-- C's `%` by 360: the remainder has the sign of the dividend.
abbrev rem_360 : ℤ → ℤ
rem_360 (pos n) = pos (n % 360)
rem_360 (negsuc n) = sub_ℕ 0 (suc n % 360)

-- `v < 0 ? v + 360 : v`, as a `u32`.
abbrev lift_360 : ℤ → ℕ
lift_360 (pos v) = v
lift_360 (negsuc v) = 360 - suc v

unfoldable pub wrap_angle_360 : ℤ → ℕ
wrap_angle_360 deg = lift_360 (rem_360 deg)

-- `flags & mask`, as a test.
abbrev pub has_flag : ℕ → ℕ → Bool
has_flag flags mask = not (bit_and flags mask == 0)

-- What the function stores through its two out pointers.
pub record Applied : Type 0 where
  pub angle_deg : ℕ
  pub mirror : ℕ

unfoldable pub pose_apply : Pose → Applied
unfolding normalize_explicit_angle wrap_angle_360
pose_apply pose =
    if has_flag pose.flags f_autopose
    then record {
      angle_deg = wrap_angle_360 (wrap_s32 (pos 270 -ℤ pose.media_rotation_deg));
      mirror = 1;
    }
    else record {
      angle_deg = normalize_explicit_angle pose.rotation_deg;
      mirror = if has_flag pose.flags f_mirror then 1 else 0;
    }
