-- ===== src/Ctrl/Encoding.antt =====
-- The command numbers of include/vcam_uapi.h and the driver's decoding of them.
use vcam_kmod.Base.{ℕ, ◌+◌, ◌*◌, ◌/◌, ◌^◌, ◌≤◌, ◌<◌, ◌≡◌, refl, ap, arith, some, bit_or}
use mathlib.Core.Path.{ap₂}
use vcam_kmod.Base.Bits.{bit_or-disjoint, bit_or-low, bit_and-mask}
use vcam_kmod.Uapi.Ioc.{
  Command, get_version, register_buf, unregister_buf, submit, dequeue_frame, release, set_range,
  set_pose, get_stats, poll_delta, number, ioc, ioc_dir, ioc_type, ioc_nr, ioc_size, magic, max_nr,
}
use vcam_kmod.Ctrl.Dispatch.{decode}

-- The driver decodes each command's number to that command, and the number passes the checks on its
-- type and its index before.
pub decode-number :
    (c : Command)
    → (decode (number c) ≡ some c) × (ioc_type (number c) ≡ magic) × (ioc_nr (number c) ≤ max_nr)
unfolding decode ioc_type ioc_nr
decode-number get_version = (refl, refl, omega arith)
decode-number register_buf = (refl, refl, omega arith)
decode-number unregister_buf = (refl, refl, omega arith)
decode-number submit = (refl, refl, omega arith)
decode-number dequeue_frame = (refl, refl, omega arith)
decode-number release = (refl, refl, omega arith)
decode-number set_range = (refl, refl, omega arith)
decode-number set_pose = (refl, refl, omega arith)
decode-number get_stats = (refl, refl, omega arith)
decode-number poll_delta = (refl, refl, omega arith)

-- A number that the driver decodes to a command is that command's number.
pub decode_sound : (n : ℕ) (c : Command) → decode n ≡ some c → n ≡ number c
unfolding decode number
decode_sound n c e = ground arith

-- The encoded number is the sum of its shifted fields.
pub ioc-sum :
    (dir type nr size : ℕ)
    → dir < 4
    → type < 256
    → nr < 256
    → size < 2 ^ 14
    → ioc dir type nr size ≡ dir * 2 ^ 30 + size * 2 ^ 16 + type * 2 ^ 8 + nr
unfolding ioc
ioc-sum dir type nr size hd ht hn hs =
    let e1 : bit_or (dir * 2 ^ 30) (type * 2 ^ 8) ≡ dir * 2 ^ 30 + type * 2 ^ 8 =
      bit_or-disjoint 30 dir (type * 2 ^ 8) (omega arith) in
    let e2 : bit_or (bit_or (dir * 2 ^ 30) (type * 2 ^ 8)) (nr * 1)
        ≡ bit_or ((dir * 2 ^ 22 + type) * 2 ^ 8) nr =
      ap₂ bit_or (omega (arith, e1)) (omega arith) in
    let e3 : bit_or ((dir * 2 ^ 22 + type) * 2 ^ 8) nr ≡ (dir * 2 ^ 22 + type) * 2 ^ 8 + nr =
      bit_or-disjoint 8 (dir * 2 ^ 22 + type) nr hn in
    let e4 : ioc dir type nr size
        ≡ bit_or (dir * 2 ^ 14 * 2 ^ 16 + (type * 2 ^ 8 + nr)) (size * 2 ^ 16) =
      ap (λ t. bit_or t (size * 2 ^ 16)) (omega (arith, e2, e3)) in
    let e5 = bit_or-low 16 (dir * 2 ^ 14) (type * 2 ^ 8 + nr) size (omega arith) in
    let e6 = bit_or-disjoint 14 dir size hs in omega (arith, e4, e5, e6)

-- The four fields of an encoded number, each below the size of its bit field, are decoded to
-- themselves.
pub ioc_fields :
    (dir type nr size : ℕ)
    → dir < 4
    → type < 256
    → nr < 256
    → size < 2 ^ 14
    → (ioc_dir (ioc dir type nr size) ≡ dir)
      × (ioc_type (ioc dir type nr size) ≡ type)
      × (ioc_nr (ioc dir type nr size) ≡ nr)
      × (ioc_size (ioc dir type nr size) ≡ size)
unfolding ioc_dir ioc_type ioc_nr ioc_size
ioc_fields dir type nr size hd ht hn hs =
    let sum = ioc-sum dir type nr size hd ht hn hs in
    let n = ioc dir type nr size in
    (
      omega (arith, sum, bit_and-mask 2 (n / 2 ^ 30)),
      omega (arith, sum, bit_and-mask 8 (n / 2 ^ 8)),
      omega (arith, sum, bit_and-mask 8 (n / 1)),
      omega (arith, sum, bit_and-mask 14 (n / 2 ^ 16)),
    )
