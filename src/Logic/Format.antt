-- ===== src/Logic/Format.antt =====
-- The format rules of src/vcam_logic.c.
pub mod Laws
use vcam_kmod.Base.{
  ℕ, zero, suc, ◌+◌, ◌*◌, ◌/◌, ◌^◌, Bool, true, false, ◌||◌, bit_and, ltb, ◌==◌, if◌then◌else◌,
  get_or,
}
use vcam_kmod.Uapi.{Format, Plane, max_planes}
use vcam_kmod.Kernel.{Result, ok, err, einval}

-- YV12, and a vendor format.
abbrev pub yv12 : ℕ
yv12 = 0x32315659

abbrev pub vendor_420 : ℕ
vendor_420 = 0x7fa30c06

unfoldable pub format_reportable : ℕ → Bool
format_reportable fourcc =
    if fourcc == yv12 || fourcc == vendor_420
    then false
    else if ltb 0x23 fourcc
    then true
    else bit_and (1 * 2 ^ fourcc) 0xE00020000 == 0

abbrev pub blank_plane : Plane
blank_plane = record { offset = 0; stride = 0 }

-- The width that the stride of plane `i` has to cover.
abbrev pub need_w : Format → ℕ → ℕ
need_w fmt i = if i == 0 then fmt.width else fmt.width / 2

-- The loop over the planes, from plane `i` with `rounds` planes left.
unfoldable pub check_planes : (rounds : ℕ) (i : ℕ) → Format → Result (Unit {0})
check_planes zero i fmt = ok tt
check_planes (suc rounds) i fmt =
    let rest = check_planes rounds (i + 1) fmt in
    if need_w fmt i == 0
    then err einval
    else if ltb (get_or fmt.plane i blank_plane).stride (need_w fmt i)
    then err einval
    else rest

unfoldable pub format_validate : Format → Result (Unit {0})
unfolding check_planes
format_validate fmt =
    if fmt.width == 0 || fmt.height == 0
    then err einval
    else if ltb 32768 fmt.width || ltb 32768 fmt.height
    then err einval
    else if fmt.num_planes == 0 || ltb max_planes fmt.num_planes
    then err einval
    else check_planes fmt.num_planes 0 fmt
