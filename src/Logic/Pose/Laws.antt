-- ===== src/Logic/Pose/Laws.antt =====
-- The pose rule of src/vcam_logic.c against modular arithmetic.
use vcam_kmod.Base.{
  ℕ, ◌+◌, ◌/◌, ◌%◌, ◌^◌, ◌≤◌, ◌<◌, ◌≡◌, ◌≢◌, arith, if◌then◌else◌, ◌==◌, ◌&&◌, ltb,
}
use vcam_kmod.Base.Bits.{bit_and-mask, bit_and_step}
use vcam_kmod.Base.Int.{
  ℤ, pos, negsuc, pos_part, neg_part, ◌-ℤ◌, ◌≤ℤ◌, ◌<ℤ◌, IsS32, wrap_s32, wrap_s32-eq_of_IsS32,
}
use vcam_kmod.Uapi.{Pose}
use vcam_kmod.Logic.Pose.{has_flag, wrap_angle_360, normalize_explicit_angle, pose_apply}

-- The two flags are the two low bits.
pub has_flag-mirror : (flags : ℕ) → has_flag flags 1 ≡ (flags % 2 == 1)
has_flag-mirror flags = ground (arith, bit_and-mask 1 flags)

pub has_flag-autopose : (flags : ℕ) → has_flag flags 2 ≡ (flags / 2 % 2 == 1)
has_flag-autopose flags = ground (arith, bit_and_step flags 2, bit_and-mask 1 (flags / 2))

-- `wrap_angle_360` is the remainder in [0, 360), for negative arguments too.
wrap_angle_360_lem :
    (x : ℤ) → (wrap_angle_360 x < 360) × ((wrap_angle_360 x + neg_part x) % 360 ≡ pos_part x % 360)
unfolding wrap_angle_360
wrap_angle_360_lem (pos n) = omega arith
wrap_angle_360_lem (negsuc n) = ground arith

-- Just above the range, wrapping takes 2 ^ 32 away.
wrap_s32_high :
    (x : ℤ) → ¬ IsS32 x → pos 0 ≤ℤ x → x <ℤ pos (2 ^ 32) → wrap_s32 x ≡ x -ℤ pos (2 ^ 32)
wrap_s32_high x wide low high = ground arith

normalize_lem : (r : ℕ) → normalize_explicit_angle r ≡ (if r % 90 == 0 && ltb r 360 then r else 0)
unfolding normalize_explicit_angle
normalize_lem r = ground arith

-- With the auto flag, and where 270 minus the clip's rotation fits an `s32`, the resolved angle is
-- that difference modulo 360, from 0 to 359, and mirroring is on.
pub pose_apply-auto :
    (p : Pose)
    → p.flags / 2 % 2 ≡ 1
    → IsS32 (pos 270 -ℤ p.media_rotation_deg)
    → ((pose_apply p).angle_deg < 360)
      × (((pose_apply p).angle_deg + pos_part p.media_rotation_deg) % 360
          ≡ (270 + neg_part p.media_rotation_deg) % 360)
      × ((pose_apply p).mirror ≡ 1)
unfolding pose_apply
pose_apply-auto p auto fits = ground (
  arith,
  has_flag-autopose p.flags,
  wrap_s32-eq_of_IsS32 (pos 270 -ℤ p.media_rotation_deg) fits,
  wrap_angle_360_lem (pos 270 -ℤ p.media_rotation_deg),
)

-- With the auto flag, and where 270 minus the clip's rotation, an `s32`, does not fit one, the
-- resolved angle is not that difference modulo 360.
pub pose_apply-overflow :
    (p : Pose)
    → p.flags / 2 % 2 ≡ 1
    → IsS32 p.media_rotation_deg
    → ¬ IsS32 (pos 270 -ℤ p.media_rotation_deg)
    → ((pose_apply p).angle_deg + pos_part p.media_rotation_deg) % 360
      ≢ (270 + neg_part p.media_rotation_deg) % 360
unfolding pose_apply
pose_apply-overflow p auto low wide e = ground (
  arith,
  has_flag-autopose p.flags,
  wrap_s32_high (pos 270 -ℤ p.media_rotation_deg),
  wrap_angle_360_lem (wrap_s32 (pos 270 -ℤ p.media_rotation_deg)),
)

-- Without the auto flag, the resolved angle is the given one if that is a multiple of 90 below 360,
-- and 0 otherwise; mirroring is the lowest bit of the flags.
pub pose_apply-explicit :
    (p : Pose)
    → p.flags / 2 % 2 ≡ 0
    → ((pose_apply p).angle_deg
        ≡ (if p.rotation_deg % 90 == 0 && ltb p.rotation_deg 360 then p.rotation_deg else 0))
      × ((pose_apply p).mirror ≡ p.flags % 2)
unfolding pose_apply
pose_apply-explicit p manual =
    ground (arith, has_flag-autopose p.flags, has_flag-mirror p.flags, normalize_lem p.rotation_deg)

-- Whatever the pose, the consumer gets an angle below 360 and a mirror flag of 0 or 1.
pub pose_apply_bounds : (p : Pose) → ((pose_apply p).angle_deg < 360) × ((pose_apply p).mirror ≤ 1)
unfolding pose_apply
pose_apply_bounds p = ground (
  arith,
  wrap_angle_360_lem (wrap_s32 (pos 270 -ℤ p.media_rotation_deg)),
  normalize_lem p.rotation_deg,
)
