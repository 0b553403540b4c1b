-- ===== src/Uapi/Ioc.antt =====
-- The ioctl encoding of include/vcam_uapi.h (VCAM_IOC and the command numbers), and the decoding
-- that the driver uses (`_IOC_TYPE`, `_IOC_NR` and their kin of verify/linux-asm-generic-ioctl.h).
use vcam_kmod.Base.{ℕ, ◌+◌, ◌-◌, ◌*◌, ◌/◌, ◌^◌, bit_and, bit_or}
use vcam_kmod.Uapi.{Struct, version, frame, u32, dequeue, u64, range, pose, stats, poll}
use vcam_kmod.Uapi.Layout.{size_of}

abbrev pub magic : ℕ
magic = b'v'

abbrev pub max_nr : ℕ
max_nr = 9

abbrev pub ioc_write : ℕ
ioc_write = 1

abbrev pub ioc_read : ℕ
ioc_read = 2

abbrev pub nr_shift : ℕ
nr_shift = 0

abbrev pub type_shift : ℕ
type_shift = nr_shift + 8

abbrev pub size_shift : ℕ
size_shift = type_shift + 8

abbrev pub dir_shift : ℕ
dir_shift = size_shift + 14

-- The operands are small enough that no shift loses a bit.
abbrev shl : ℕ → ℕ → ℕ
shl x k = x * 2 ^ k

unfoldable pub ioc : ℕ → ℕ → ℕ → ℕ → ℕ
ioc dir type nr size =
    bit_or (bit_or (bit_or (shl dir dir_shift) (shl type type_shift)) (shl nr nr_shift))
      (shl size size_shift)

abbrev field : ℕ → ℕ → ℕ → ℕ
field cmd shift bits = bit_and (cmd / 2 ^ shift) (2 ^ bits - 1)

unfoldable pub ioc_dir : ℕ → ℕ
ioc_dir cmd = field cmd dir_shift 2

unfoldable pub ioc_type : ℕ → ℕ
ioc_type cmd = field cmd type_shift 8

unfoldable pub ioc_nr : ℕ → ℕ
ioc_nr cmd = field cmd nr_shift 8

unfoldable pub ioc_size : ℕ → ℕ
ioc_size cmd = field cmd size_shift 14

unfoldable pub ior : ℕ → Struct → ℕ
unfolding ioc
ior nr t = ioc ioc_read magic nr (size_of t)

unfoldable pub iow : ℕ → Struct → ℕ
unfolding ioc
iow nr t = ioc ioc_write magic nr (size_of t)

unfoldable pub iowr : ℕ → Struct → ℕ
unfolding ioc
iowr nr t = ioc (bit_or ioc_read ioc_write) magic nr (size_of t)

-- The ten commands.
pub data Command : Type 0 where
  get_version register_buf unregister_buf submit dequeue_frame release set_range set_pose : Command
  get_stats poll_delta : Command

unfoldable pub number : Command → ℕ
unfolding ior iow iowr
number get_version = ior 0 version
number register_buf = iowr 1 frame
number unregister_buf = iow 2 u32
number submit = iow 3 frame
number dequeue_frame = ior 4 dequeue
number release = iow 5 u64
number set_range = iow 6 range
number set_pose = iow 7 pose
number get_stats = ior 8 stats
number poll_delta = ior 9 poll
