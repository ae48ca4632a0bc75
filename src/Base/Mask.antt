-- ===== src/Base/Mask.antt =====
-- `bit_and` with a mask of low bits and with a single bit.
use Prim.Native.Nat.{
  ℕ, zero, suc, ◌+◌, ◌-◌, ◌*◌, ◌/◌, ◌%◌, ◌^◌, ◌≤◌, ◌<◌, min, digits, bit_and, bit_and-bitwise,
}
use mathlib.Core.Path.{◌≡◌, refl}
use native.Mathlib.Omega.{arith}
use native.Mathlib.Nat.{pow-suc, one-le-pow, div-div-eq-div-mul}

-- The common binary digits of two numbers, with room for `fuel` digits.
abbrev common : (fuel x y : ℕ) → ℕ
common fuel x y = digits (λ rest. zero) min fuel x y

common-stable : (x y fuel spare : ℕ) → x ≤ fuel → x ≤ spare → common fuel x y ≡ common spare x y
common-stable zero y zero zero enough more = refl
common-stable zero y zero (suc spare) enough more = refl
common-stable zero y (suc fuel) zero enough more = refl
common-stable zero y (suc fuel) (suc spare) enough more = refl
common-stable (suc x) y zero spare enough more = absurd (omega arith)
common-stable (suc x) y (suc fuel) zero enough more = absurd (omega arith)
common-stable (suc x) y (suc fuel) (suc spare) enough more =
    omega (arith, common-stable (suc x / 2) (y / 2) fuel spare (omega arith) (omega arith))

digit_step : (x y : ℕ) → bit_and x y ≡ bit_and (x / 2) (y / 2) * 2 + min (x % 2) (y % 2)
digit_step zero y = omega (arith, bit_and-bitwise 0 y, bit_and-bitwise 0 (y / 2))
digit_step (suc x) y = omega (
  arith,
  bit_and-bitwise (suc x) y,
  bit_and-bitwise (suc x / 2) (y / 2),
  common-stable (suc x / 2) (y / 2) x (suc x / 2) (omega arith) (omega arith),
)

no_digits : (fuel x : ℕ) → x ≤ fuel → bit_and x 0 ≡ 0
no_digits fuel zero enough = bit_and-bitwise 0 0
no_digits zero (suc x) enough = absurd (omega arith)
no_digits (suc fuel) (suc x) enough =
    omega (arith, digit_step (suc x) 0, no_digits fuel (suc x / 2) (omega arith))

half_mod : (x m : ℕ) → 0 < m → x % (2 * m) ≡ x / 2 % m * 2 + x % 2
half_mod x m pos = grind arith

-- `x & (2^k - 1)` is `x % 2^k`.
pub bit_and_mask : (k x : ℕ) → bit_and x (2 ^ k - 1) ≡ x % 2 ^ k
bit_and_mask zero x = omega (arith, no_digits x x (omega arith))
bit_and_mask (suc k) x =
    let some_ones = one-le-pow k 2 (omega arith) in
    let twice : 2 ^ suc k ≡ 2 * 2 ^ k = omega (arith, pow-suc 2 k) in
    let half : (2 ^ suc k - 1) / 2 ≡ 2 ^ k - 1 = omega (arith, twice, some_ones) in
    let odd : (2 ^ suc k - 1) % 2 ≡ 1 = omega (arith, twice, some_ones) in
    let rest : bit_and (x / 2) ((2 ^ suc k - 1) / 2) ≡ x / 2 % 2 ^ k =
      rw half (bit_and_mask k (x / 2)) in
    let split : x % 2 ^ suc k ≡ x / 2 % 2 ^ k * 2 + x % 2 =
      rw twice (half_mod x (2 ^ k) some_ones) in
    omega (arith, digit_step x (2 ^ suc k - 1), odd, rest, split)

-- `x & (1 << k)` is the bit k of x in its place.
pub bit_and_pow : (k x : ℕ) → bit_and x (2 ^ k) ≡ x / 2 ^ k % 2 * 2 ^ k
bit_and_pow zero x = omega (arith, bit_and_mask 1 x)
bit_and_pow (suc k) x =
    let twice : 2 ^ suc k ≡ 2 * 2 ^ k = omega (arith, pow-suc 2 k) in
    let half : 2 ^ suc k / 2 ≡ 2 ^ k = omega (arith, twice) in
    let even : 2 ^ suc k % 2 ≡ 0 = omega (arith, twice) in
    let rest : bit_and (x / 2) (2 ^ suc k / 2) ≡ x / 2 / 2 ^ k % 2 * 2 ^ k =
      rw half (bit_and_pow k (x / 2)) in
    let same : x / 2 / 2 ^ k ≡ x / 2 ^ suc k = rw twice (div-div-eq-div-mul x 2 (2 ^ k)) in
    let step : bit_and x (2 ^ suc k) ≡ x / 2 / 2 ^ k % 2 * 2 ^ k * 2 =
      omega (arith, digit_step x (2 ^ suc k), even, rest) in
    rw (step, same, twice) (grind arith)
