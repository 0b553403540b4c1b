-- ===== src/Base/Bits.antt =====
-- Facts about `bit_and` and `bit_or` at variables, and tables over small ranges.
use Prim.Native.Nat.{
  ℕ, zero, suc, ◌+◌, ◌-◌, ◌*◌, ◌/◌, ◌%◌, ◌^◌, ◌≤◌, ◌<◌, min, max, bit_and, bit_or, digits,
  bit_and-bitwise, bit_or-bitwise,
}
use mathlib.Core.Path.{◌≡◌, refl, ap, ap₂, sym, ◌∙◌}
use mathlib.Core.Bool.{Bool, true, ◌&&◌}
use native.Mathlib.Nat.{pow-suc, mod-add-div', mod-eq_of_lt, mod-lt, add-mul-mod_self_right}
use native.Mathlib.Omega.{arith}

-- The test holds of every number below `bound`, by evaluation.
unfoldable pub all_below : (test : ℕ → Bool) (bound : ℕ) → Bool
all_below test zero = true
all_below test (suc bound) = test bound && all_below test bound

pub all_below_sound :
    (test : ℕ → Bool) (bound i : ℕ) → i < bound → all_below test bound ≡ true → test i ≡ true
unfolding all_below
all_below_sound test zero i below all = absurd (omega arith)
all_below_sound test (suc bound) i below all = ground (arith, all_below_sound test bound i)

pub pow-pos : (k : ℕ) → 0 < 2 ^ k
pow-pos zero = omega arith
pow-pos (suc k) = rw pow-suc (omega (arith, pow-pos k))

-- Both native operations go through the same digits; only the case of an empty left side differs.
module _ (base : ℕ → ℕ) (f : ℕ → ℕ → ℕ)
    (law : (b : ℕ) → base b ≡ base (b / 2) * 2 + f 0 (b % 2)) where
  one_more : (n x y : ℕ) → x ≤ n → digits base f (suc n) x y ≡ digits base f n x y
  one_more zero zero y h = refl
  one_more zero (suc x) y h = absurd (omega arith)
  one_more (suc n) zero y h = refl
  one_more (suc n) (suc x) y h =
      let inner = one_more n (suc x / 2) (y / 2) (omega arith) in omega (arith, inner)

  -- Fuel beyond the left side changes nothing.
  spare_fuel : (spare n x y : ℕ) → x ≤ n → digits base f (n + spare) x y ≡ digits base f n x y
  spare_fuel zero n x y h = ap (λ t. digits base f t x y) (omega arith)
  spare_fuel (suc spare) n x y h =
      let moved : n + suc spare ≡ suc (n + spare) = omega arith in
      ap (λ t. digits base f t x y) moved
      ∙ one_more (n + spare) x y (omega arith)
      ∙ spare_fuel spare n x y h

  digits_step :
      (x y : ℕ)
      → digits base f x x y ≡ digits base f (x / 2) (x / 2) (y / 2) * 2 + f (x % 2) (y % 2)
  digits_step zero y = law y
  digits_step (suc x) y =
      let half = suc x / 2 in
      let enough : half + (x - half) ≡ x = omega arith in
      let inner : digits base f x half (y / 2) ≡ digits base f half half (y / 2) =
        ap (λ t. digits base f t half (y / 2)) (sym enough)
        ∙ spare_fuel (x - half) half half (y / 2) (omega arith) in
      omega (arith, inner)

-- The law for the lowest digit.
pub bit_and_step :
    (x mask : ℕ) → bit_and x mask ≡ bit_and (x / 2) (mask / 2) * 2 + min (x % 2) (mask % 2)
bit_and_step a b = omega (
  arith,
  bit_and-bitwise a b,
  bit_and-bitwise (a / 2) (b / 2),
  digits_step (λ b. zero) min (λ b. omega arith) a b,
)

bit_or_step : (x mask : ℕ) → bit_or x mask ≡ bit_or (x / 2) (mask / 2) * 2 + max (x % 2) (mask % 2)
bit_or_step a b = omega (
  arith,
  bit_or-bitwise a b,
  bit_or-bitwise (a / 2) (b / 2),
  digits_step (λ b. b) max (λ b. omega arith) a b,
)

half-mod : (m a : ℕ) → 0 < m → a / 2 % m * 2 + a % 2 ≡ a % (m * 2)
half-mod m a h =
    let e : a ≡ (a / 2 % m * 2 + a % 2) + a / 2 / m * (m * 2) =
      omega (arith, mod-add-div' (a / 2) m) in
    let f : a % (m * 2) ≡ ((a / 2 % m * 2 + a % 2) + a / 2 / m * (m * 2)) % (m * 2) =
      ap (λ t. t % (m * 2)) e in
    let g : (a / 2 % m * 2 + a % 2) % (m * 2) ≡ a / 2 % m * 2 + a % 2 =
      mod-eq_of_lt (omega (arith, mod-lt (a / 2) h)) in
    sym (f ∙ add-mul-mod_self_right _ (a / 2 / m) (m * 2) ∙ g)

bit_and-zero : (fuel x : ℕ) → x ≤ fuel → bit_and x 0 ≡ 0
bit_and-zero zero x h = let none_left : x ≡ 0 = omega arith in ap (λ t. bit_and t 0) none_left
bit_and-zero (suc fuel) zero h = refl
bit_and-zero (suc fuel) (suc x) h =
    let rest = bit_and-zero fuel (suc x / 2) (omega arith) in
    omega (arith, rest, bit_and_step (suc x) 0)

-- Masking by k ones is the remainder by 2 ^ k.
pub bit_and-mask : (k a : ℕ) → bit_and a (2 ^ k - 1) ≡ a % 2 ^ k
bit_and-mask zero a = omega (arith, bit_and-zero a a (omega arith))
bit_and-mask (suc k) a =
    let low : bit_and (a / 2) ((2 ^ k * 2 - 1) / 2) ≡ bit_and (a / 2) (2 ^ k - 1) =
      ap (bit_and (a / 2)) (omega (arith, pow-pos k)) in
    rw pow-suc (
      omega (
        arith,
        low,
        pow-pos k,
        half-mod (2 ^ k) a (pow-pos k),
        bit_and_step a (2 ^ k * 2 - 1),
        bit_and-mask k (a / 2),
      ))

bit_or-zero : (n a : ℕ) → a ≤ n → bit_or a 0 ≡ a
bit_or-zero n zero h = refl
bit_or-zero zero (suc a) h = absurd (omega arith)
bit_or-zero (suc n) (suc a) h =
    omega (arith, bit_or_step (suc a) 0, bit_or-zero n (suc a / 2) (omega arith))

-- Bits that do not overlap add up.
pub bit_or-disjoint : (k a b : ℕ) → b < 2 ^ k → bit_or (a * 2 ^ k) b ≡ a * 2 ^ k + b
bit_or-disjoint zero a b h =
    ap (bit_or (a * 1)) (omega arith) ∙ bit_or-zero (a * 1) (a * 1) (omega arith) ∙ omega arith
bit_or-disjoint (suc k) a b h =
    let e : 2 ^ suc k ≡ 2 ^ k * 2 = pow-suc 2 k in
    let half : bit_or (a * (2 ^ k * 2) / 2) (b / 2) ≡ bit_or (a * 2 ^ k) (b / 2) =
      ap (λ t. bit_or t (b / 2)) (omega arith) in
    rw e (
      omega
        (arith, half, bit_or_step (a * (2 ^ k * 2)) b, bit_or-disjoint k a (b / 2) (omega arith)))

-- The low bits of one side pass through where the other side has none.
pub bit_or-low :
    (k a b c : ℕ) → b < 2 ^ k → bit_or (a * 2 ^ k + b) (c * 2 ^ k) ≡ bit_or a c * 2 ^ k + b
bit_or-low zero a b c h =
    let same : bit_or (a * 1 + b) (c * 1) ≡ bit_or a c = ap₂ bit_or (omega arith) (omega arith) in
    omega (arith, same)
bit_or-low (suc k) a b c h =
    let e : 2 ^ suc k ≡ 2 ^ k * 2 = pow-suc 2 k in
    let half : bit_or ((a * (2 ^ k * 2) + b) / 2) (c * (2 ^ k * 2) / 2)
        ≡ bit_or (a * 2 ^ k + b / 2) (c * 2 ^ k) =
      ap₂ bit_or (omega arith) (omega arith) in
    rw e (
      omega (
        arith,
        half,
        bit_or_step (a * (2 ^ k * 2) + b) (c * (2 ^ k * 2)),
        bit_or-low k a (b / 2) c (omega arith),
      ))
