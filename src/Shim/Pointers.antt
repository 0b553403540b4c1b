-- ===== src/Shim/Pointers.antt =====
-- shim/vcam_shim_kernel.h: error pointers, as 64-bit words.
use vcam_kmod.Base.{
  ℕ, suc, ◌-◌, ◌%◌, ◌^◌, ◌<◌, ◌≡◌, ◌↔◌, Bool, true, ltb, leb, if◌then◌else◌, arith,
}
use vcam_kmod.Base.Int.{ℤ, pos, negsuc}

-- A `long` as a pointer; a negative one is two's complement.
unfoldable pub err_ptr : ℤ → ℕ
err_ptr (pos n) = n % 2 ^ 64
err_ptr (negsuc n) = 2 ^ 64 - suc n

unfoldable pub is_err : ℕ → Bool
is_err p = leb (2 ^ 64 - 4095) p

-- A pointer as a `long`.
unfoldable pub ptr_err : ℕ → ℤ
ptr_err p = if ltb p (2 ^ 63) then pos p else negsuc (2 ^ 64 - suc p)

-- A 64-bit pointer is an error exactly if it is the error pointer of one of the codes -1 to -4095,
-- and the code is then read back from it.
pub is_err_iff :
    (p : ℕ)
    → p < 2 ^ 64
    → is_err p ≡ true ↔ ((n : ℕ) × (n < 4095) × (err_ptr (negsuc n) ≡ p) × (ptr_err p ≡ negsuc n))
unfolding is_err err_ptr ptr_err
is_err_iff p h = (
  λ e. (2 ^ 64 - suc p, ground arith, ground arith, ground arith),
  λ x. ground (arith, x.0, x.1, x.2),
)
