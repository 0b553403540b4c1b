-- ===== src/Verify/Ioctl.antt =====
-- verify/linux-asm-generic-ioctl.h, and the same macros of shim/vcam_shim_kernel.h, on 64-bit words.
use vcam_kmod.Base.{ℕ, ◌+◌, ◌-◌, ◌*◌, ◌/◌, ◌%◌, ◌^◌, bit_and, bit_or}
use vcam_kmod.Uapi.{Struct}
use vcam_kmod.Uapi.Layout.{size_of}

-- The operands of a shift are `unsigned int` or wider; the widest, `size_t`, has 64 bits.
abbrev shl : ℕ → ℕ → ℕ
shl x k = x * 2 ^ k % 2 ^ 64

abbrev shr : ℕ → ℕ → ℕ
shr x k = x / 2 ^ k

abbrev pub nr_bits : ℕ
nr_bits = 8

abbrev pub type_bits : ℕ
type_bits = 8

abbrev pub size_bits : ℕ
size_bits = 14

abbrev pub dir_bits : ℕ
dir_bits = 2

abbrev pub mask : ℕ → ℕ
mask bits = shl 1 bits - 1

abbrev pub nr_shift : ℕ
nr_shift = 0

abbrev pub type_shift : ℕ
type_shift = nr_shift + nr_bits

abbrev pub size_shift : ℕ
size_shift = type_shift + type_bits

abbrev pub dir_shift : ℕ
dir_shift = size_shift + size_bits

abbrev pub dir_none : ℕ
dir_none = 0

abbrev pub dir_write : ℕ
dir_write = 1

abbrev pub dir_read : ℕ
dir_read = 2

unfoldable pub ioc : (dir type nr size : ℕ) → ℕ
ioc dir type nr size =
    bit_or (bit_or (bit_or (shl dir dir_shift) (shl type type_shift)) (shl nr nr_shift))
      (shl size size_shift)

unfoldable pub io : (type nr : ℕ) → ℕ
unfolding ioc
io type nr = ioc dir_none type nr 0

unfoldable pub ior : (type nr : ℕ) → Struct → ℕ
unfolding ioc
ior type nr t = ioc dir_read type nr (size_of t)

unfoldable pub iow : (type nr : ℕ) → Struct → ℕ
unfolding ioc
iow type nr t = ioc dir_write type nr (size_of t)

unfoldable pub iowr : (type nr : ℕ) → Struct → ℕ
unfolding ioc
iowr type nr t = ioc (bit_or dir_read dir_write) type nr (size_of t)

unfoldable pub dir_of : ℕ → ℕ
dir_of cmd = bit_and (shr cmd dir_shift) (mask dir_bits)

unfoldable pub type_of : ℕ → ℕ
type_of cmd = bit_and (shr cmd type_shift) (mask type_bits)

unfoldable pub nr_of : ℕ → ℕ
nr_of cmd = bit_and (shr cmd nr_shift) (mask nr_bits)

unfoldable pub size_in : ℕ → ℕ
size_in cmd = bit_and (shr cmd size_shift) (mask size_bits)
