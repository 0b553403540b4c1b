-- ===== src/Verify/Check.antt =====
-- verify/ioctl_abi_check.c: the assertions that the build makes.
use vcam_kmod.Base.{
  ℕ, ◌%◌, ◌^◌, ◌*◌, ◌≡◌, ◌<◌, Bool, true, ◌&&◌, ◌==◌, bit_or, bit_and, ◌/◌, ◌↔◌, sym, ◌∙◌, refl,
  arith, List, [], ◌∷◌,
}
use vcam_kmod.Uapi.{version, frame, u32, dequeue, u64, range, pose, stats, poll, max_planes}
use vcam_kmod.Ctrl.Encoding.{ioc_fields, ioc-sum}
use vcam_kmod.Base.Bits.{bit_and-mask}
use vcam_kmod.Uapi.Layout.{format_members, size_of, size_of_members}
use vcam_kmod.Uapi.Ioc.{
  Command, get_version, register_buf, unregister_buf, submit, dequeue_frame, release, set_range,
  set_pose, get_stats, poll_delta, number, magic, max_nr, ioc, ioc_dir, ioc_type, ioc_nr, ioc_size,
}
use vcam_kmod.Verify.Ioctl.{ior, iow, iowr, dir_of, type_of, nr_of, size_in, dir_read, dir_write}
use vcam_kmod.Verify.Ioctl

-- The kernel's number of each command.
unfoldable pub kernel_number : Command → ℕ
unfolding ior iow iowr
kernel_number get_version = ior magic 0 version
kernel_number register_buf = iowr magic 1 frame
kernel_number unregister_buf = iow magic 2 u32
kernel_number submit = iow magic 3 frame
kernel_number dequeue_frame = ior magic 4 dequeue
kernel_number release = iow magic 5 u64
kernel_number set_range = iow magic 6 range
kernel_number set_pose = iow magic 7 pose
kernel_number get_stats = ior magic 8 stats
kernel_number poll_delta = ior magic 9 poll

-- The other assertions, in the file's order.
unfoldable assertions : List Bool
unfolding type_of nr_of dir_of size_in number
assertions =
    (type_of (number submit) == magic)
    ∷ (nr_of (number submit) == 3)
    ∷ (dir_of (number submit) == dir_write)
    ∷ (dir_of (number dequeue_frame) == dir_read)
    ∷ (dir_of (number register_buf) == bit_or dir_read dir_write)
    ∷ (size_in (number submit) == size_of frame)
    ∷ (max_nr == 9)
    ∷ (nr_of (number poll_delta) == max_nr)
    ∷ (max_planes == 3)
    ∷ (size_of_members format_members == 40)
    ∷ (size_of frame % 8 == 0)
    ∷ []

abbrev all_true : List Bool → Bool
all_true [] = true
all_true (b ∷ bs) = b && all_true bs

-- The assertions of the ABI check hold.
assertions_hold : all_true assertions ≡ true
unfolding assertions
assertions_hold = refl

-- The direction, the index and the size of the argument of each command, as numbers.
abbrev pub fields : Command → ℕ × ℕ × ℕ
fields get_version = (2, 0, 16)
fields register_buf = (3, 1, 80)
fields unregister_buf = (1, 2, 4)
fields submit = (1, 3, 80)
fields dequeue_frame = (2, 4, 24)
fields release = (1, 5, 8)
fields set_range = (1, 6, 24)
fields set_pose = (1, 7, 16)
fields get_stats = (2, 8, 72)
fields poll_delta = (2, 9, 16)

-- For fields within their bits, the encoding of the module's header is the kernel's, and the
-- kernel's macros decode it to the fields.
pub ioc-kernel :
    (dir type nr size : ℕ)
    → dir < 4
    → type < 256
    → nr < 256
    → size < 2 ^ 14
    → let cmd = ioc dir type nr size in
      (cmd ≡ Ioctl.ioc dir type nr size)
      × (dir_of cmd ≡ dir)
      × (type_of cmd ≡ type)
      × (nr_of cmd ≡ nr)
      × (size_in cmd ≡ size)
unfolding dir_of type_of nr_of size_in Ioctl.ioc ioc ioc_dir ioc_type ioc_nr ioc_size
ioc-kernel dir type nr size hd ht hn hs =
    let (d, t, n, s) = ioc_fields dir type nr size hd ht hn hs in
    let a : dir * 2 ^ 30 % 2 ^ 64 ≡ dir * 2 ^ 30 = omega arith in
    let b : type * 2 ^ 8 % 2 ^ 64 ≡ type * 2 ^ 8 = omega arith in
    let c : nr * 2 ^ 0 % 2 ^ 64 ≡ nr * 2 ^ 0 = omega arith in
    let e : size * 2 ^ 16 % 2 ^ 64 ≡ size * 2 ^ 16 = omega arith in
    (rw (a, b, c, e) refl, d, t, n, s)

-- A 32-bit number is put together from the fields that the kernel's macros read off it.
of_fields : (n : ℕ) → n < 2 ^ 32 → ioc (dir_of n) (type_of n) (nr_of n) (size_in n) ≡ n
unfolding dir_of type_of nr_of size_in
of_fields n h =
    let d = bit_and-mask 2 (n / 2 ^ 30) in
    let t = bit_and-mask 8 (n / 2 ^ 8) in
    let r = bit_and-mask 8 (n / 1) in
    let s = bit_and-mask 14 (n / 2 ^ 16) in
    let sum =
      ioc-sum (bit_and (n / 2 ^ 30) 3) (bit_and (n / 2 ^ 8) 255) (bit_and (n / 1) 255)
        (bit_and (n / 2 ^ 16) 16383) (omega (arith, d)) (omega (arith, t)) (omega (arith, r))
        (omega (arith, s)) in
    omega (arith, sum, d, t, r, s)

-- The fields are within their bits.
fields_in :
    (c : Command) → let (dir, nr, size) = fields c in (dir < 4) × (nr < 256) × (size < 2 ^ 14)
fields_in c = ground arith

number-ioc : (c : Command) → let (dir, nr, size) = fields c in number c ≡ ioc dir 118 nr size
unfolding number ioc
number-ioc get_version = refl
number-ioc register_buf = refl
number-ioc unregister_buf = refl
number-ioc submit = refl
number-ioc dequeue_frame = refl
number-ioc release = refl
number-ioc set_range = refl
number-ioc set_pose = refl
number-ioc get_stats = refl
number-ioc poll_delta = refl

-- `CHECK_IOC`.
number-kernel_number : (c : Command) → number c ≡ kernel_number c
unfolding number kernel_number
number-kernel_number get_version = refl
number-kernel_number register_buf = refl
number-kernel_number unregister_buf = refl
number-kernel_number submit = refl
number-kernel_number dequeue_frame = refl
number-kernel_number release = refl
number-kernel_number set_range = refl
number-kernel_number set_pose = refl
number-kernel_number get_stats = refl
number-kernel_number poll_delta = refl

-- Each command has the number that the kernel's macros give, and a 32-bit number is that number
-- exactly when the kernel's macros read off it the type 'v' and the command's direction, index and
-- size: those of the table `fields`, which has the sizes of the user's structures in bytes.
pub number_iff :
    (c : Command) (n : ℕ)
    → n < 2 ^ 32
    → let (dir, nr, size) = fields c in
      (number c ≡ kernel_number c)
      × ((n ≡ number c)
          ↔ ((dir_of n ≡ dir) × (type_of n ≡ 118) × (nr_of n ≡ nr) × (size_in n ≡ size)))
number_iff c n h =
    let (dir, nr, size) = fields c in
    let (d, r, s) = fields_in c in
    let (_, fd, ft, fr, fs) = ioc-kernel dir 118 nr size d (omega arith) r s in
    (
      number-kernel_number c,
      (
        λ e. rw (e, number-ioc c) (fd, ft, fr, fs),
        λ f. sym (of_fields n h) ∙ rw (f.0, f.1, f.2, f.3) (sym (number-ioc c)),
      ),
    )
