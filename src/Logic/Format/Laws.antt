-- ===== src/Logic/Format/Laws.antt =====
-- The format rules of src/vcam_logic.c against an independent description.
use vcam_kmod.Base.{
  ℕ, zero, suc, ◌+◌, ◌*◌, ◌≤◌, ◌<◌, ◌≡◌, ◌↔◌, ◌⊎◌, refl, Bool, true, ◌||◌, not, arith, ◌==◌,
  if◌then◌else◌, get_or, dec_lt, subst, inl,
}
use vcam_kmod.Base.Bits.{all_below, all_below_sound}
use vcam_kmod.Uapi.{Format}
use vcam_kmod.Kernel.{ok, err, einval}
use vcam_kmod.Logic.Format.{
  format_reportable, format_validate, check_planes, need_w, blank_plane, yv12, vendor_420,
}

abbrev pub known : ℕ → Bool
known f = f == 17 || f == 33 || f == 34 || f == 35 || f == yv12 || f == vendor_420

mask_table : all_below (λ f. if format_reportable f then not (known f) else known f) 36 ≡ true
unfolding all_below format_reportable
mask_table = refl

-- A format is reported unless it is one of six known ones: 17, 33, 34, 35, YV12 and 0x7fa30c06.
pub format_reportable_lem : (f : ℕ) → format_reportable f ≡ not (known f)
unfolding format_reportable
format_reportable_lem f = elim (dec_lt f 36) [
  | yes low ↦ ground (arith, all_below_sound _ 36 f low mask_table)
  | no high ↦ ground arith
]

-- The check of plane `i`.
abbrev Covers : Format → ℕ → Type 0
Covers fmt i = (0 < need_w fmt i) × (need_w fmt i ≤ (get_or fmt.plane i blank_plane).stride)

-- A geometry, with the rule for the strides of the first plane and of the others.
pub record IsFormat (fmt : Format) : Type 0 where
  pub width_in : (0 < fmt.width) × (fmt.width ≤ 32768)
  pub height_in : (0 < fmt.height) × (fmt.height ≤ 32768)
  pub planes_in : (0 < fmt.num_planes) × (fmt.num_planes ≤ 3)
  pub luma : fmt.width ≤ (get_or fmt.plane 0 blank_plane).stride
  pub chroma :
      (i : ℕ)
      → 0 < i
      → i < fmt.num_planes
      → (2 ≤ fmt.width) × (fmt.width ≤ 2 * (get_or fmt.plane i blank_plane).stride + 1)

check_planes_step :
    (n i : ℕ) (fmt : Format)
    → check_planes (suc n) i fmt ≡ ok tt
    → Covers fmt i × (check_planes n (i + 1) fmt ≡ ok tt)
unfolding check_planes
check_planes_step n i fmt e = ground arith

check_planes_sound :
    (n i : ℕ) (fmt : Format)
    → check_planes n i fmt ≡ ok tt
    → (j : ℕ) → i ≤ j
    → j < i + n
    → Covers fmt j
check_planes_sound zero i fmt e j h k = absurd (omega arith)
check_planes_sound (suc n) i fmt e j h k =
    let (here, later) = check_planes_step n i fmt e in
    elim (dec_lt i j) [
      | yes p ↦ check_planes_sound n (i + 1) fmt later j (omega arith) (omega arith)
      | no p ↦ let same : i ≡ j = omega arith in subst (Covers fmt) same here
    ]

check_planes_complete :
    (n i : ℕ) (fmt : Format)
    → ((j : ℕ) → i ≤ j → j < i + n → Covers fmt j)
    → check_planes n i fmt ≡ ok tt
unfolding check_planes
check_planes_complete zero i fmt h = refl
check_planes_complete (suc n) i fmt h =
    let rest = check_planes_complete n (i + 1) fmt (λ j p q. h j (omega arith) (omega arith)) in
    let here = h i (omega arith) (omega arith) in ground (arith, rest, here)

check_planes-err :
    (n i : ℕ) (fmt : Format) → (check_planes n i fmt ≡ ok tt) ⊎ (check_planes n i fmt ≡ err einval)
unfolding check_planes
check_planes-err zero i fmt = inl refl
check_planes-err (suc n) i fmt = ground (arith, check_planes-err n (i + 1) fmt)

-- A geometry is accepted exactly when width and height are from 1 to 32768, there are 1 to 3
-- planes, the stride of the first plane is at least the width, and, if there are others, the width
-- is at least 2 and the stride of each other plane is at least half of it, rounded down.
pub format_validate_iff : (fmt : Format) → (format_validate fmt ≡ ok tt) ↔ IsFormat fmt
unfolding format_validate
format_validate_iff fmt = (
  λ e.
      let covered = λ (i : ℕ) (h : i < fmt.num_planes).
        check_planes_sound fmt.num_planes 0 fmt (ground arith) i (omega arith) (omega arith) in
      let planes : (0 < fmt.num_planes) × (fmt.num_planes ≤ 3) = ground arith in
      record {
        width_in = ground arith;
        height_in = ground arith;
        planes_in = planes;
        luma = (covered 0 planes.0).1;
        chroma = λ i pos h. let c = covered i h in ground (arith, c);
      },
  λ v.
      let covers = λ (i : ℕ) (h : i < fmt.num_planes). elim (dec_lt 0 i) as (λ _. Covers fmt i) [
        | yes later ↦ ground (arith, v.chroma i later h)
        | no first ↦ ground (arith, v.luma, v.width_in)
      ] in
      let planes = check_planes_complete fmt.num_planes 0 fmt (λ j _ q. covers j (omega arith)) in
      ground (arith, planes, v.width_in, v.height_in, v.planes_in),
)

-- The only error is -EINVAL.
pub format_validate-err :
    (fmt : Format) → (format_validate fmt ≡ ok tt) ⊎ (format_validate fmt ≡ err einval)
unfolding format_validate
format_validate-err fmt = ground (arith, check_planes-err fmt.num_planes 0 fmt)
