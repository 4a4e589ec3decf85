-- ===== src/Base/Bits.antt =====
-- Masks and shifts of machine words as arithmetic.
use Prim.Native.Nat.{
  ℕ, zero, suc, ◌+◌, ◌-◌, ◌*◌, ◌/◌, ◌%◌, ◌^◌, ◌≤◌, ◌<◌, min, max, bit_and, bit_or, digits,
  bit_and-bitwise, bit_or-bitwise,
}
use native.Mathlib.Nat.{div-div-eq-div-mul, div-add-mod'}
use mathlib.Core.Path.{◌≡◌, refl, ap, ◌∙◌}
use native.Mathlib.Omega.{arith}

-- More digits than the first number has make no difference.
digits_enough :
    (z : ℕ → ℕ) (f : ℕ → ℕ → ℕ) (n m a b : ℕ) → a ≤ n → a ≤ m → digits z f n a b ≡ digits z f m a b
digits_enough z f zero zero a b p q = refl
digits_enough z f zero (suc m) zero b p q = refl
digits_enough z f zero (suc m) (suc a) b p q = absurd (omega arith)
digits_enough z f (suc n) zero zero b p q = refl
digits_enough z f (suc n) zero (suc a) b p q = absurd (omega arith)
digits_enough z f (suc n) (suc m) zero b p q = refl
digits_enough z f (suc n) (suc m) (suc a) b p q =
    omega (arith, digits_enough z f n m (suc a / 2) (b / 2) (omega arith) (omega arith))

-- The lowest digit and the others.
and_step : (a b : ℕ) → bit_and a b ≡ bit_and (a / 2) (b / 2) * 2 + min (a % 2) (b % 2)
and_step zero b = omega (arith, bit_and-bitwise 0 b, bit_and-bitwise 0 (b / 2))
and_step (suc a) b = omega (
  arith,
  bit_and-bitwise (suc a) b,
  bit_and-bitwise (suc a / 2) (b / 2),
  digits_enough (λ b. zero) min a (suc a / 2) (suc a / 2) (b / 2) (omega arith) (omega arith),
)

or_step : (a b : ℕ) → bit_or a b ≡ bit_or (a / 2) (b / 2) * 2 + max (a % 2) (b % 2)
or_step zero b = omega (arith, bit_or-bitwise 0 b, bit_or-bitwise 0 (b / 2))
or_step (suc a) b = omega (
  arith,
  bit_or-bitwise (suc a) b,
  bit_or-bitwise (suc a / 2) (b / 2),
  digits_enough (λ b. b) max a (suc a / 2) (suc a / 2) (b / 2) (omega arith) (omega arith),
)

and_zero_below : (n a : ℕ) → a ≤ n → bit_and a 0 ≡ 0
and_zero_below n zero h = omega (arith, bit_and-bitwise 0 0)
and_zero_below zero (suc a) h = absurd (omega arith)
and_zero_below (suc n) (suc a) h =
    omega (arith, and_step (suc a) 0, and_zero_below n (suc a / 2) (omega arith))

or_zero_below : (n a : ℕ) → a ≤ n → bit_or a 0 ≡ a
or_zero_below n zero h = omega (arith, bit_or-bitwise 0 0)
or_zero_below zero (suc a) h = absurd (omega arith)
or_zero_below (suc n) (suc a) h =
    omega (arith, or_step (suc a) 0, or_zero_below n (suc a / 2) (omega arith))

pub zero-bit_or : (b : ℕ) → bit_or 0 b ≡ b
zero-bit_or b = bit_or-bitwise 0 b

pow_pos : (k : ℕ) → 0 < 2 ^ k
pow_pos zero = omega arith
pow_pos (suc k) = omega (arith, pow_pos k)

double : (k a : ℕ) → a * 2 ^ suc k ≡ a * 2 ^ k * 2
double k a = let e : 2 ^ suc k ≡ 2 ^ k * 2 = omega arith in omega (arith, ap (λ (t : ℕ). a * t) e)

half_div : (k x : ℕ) → x / 2 / 2 ^ k ≡ x / 2 ^ suc k
half_div k x = div-div-eq-div-mul x 2 (2 ^ k) ∙ ap (λ (t : ℕ). x / t) (omega arith)

half_mod : (k x : ℕ) → x % 2 ^ suc k ≡ x / 2 % 2 ^ k * 2 + x % 2
half_mod k x = omega (
  arith,
  double k (x / 2 ^ suc k),
  half_div k x,
  div-add-mod' x (2 ^ suc k),
  div-add-mod' (x / 2) (2 ^ k),
  ap (λ (t : ℕ). t * 2 ^ k) (half_div k x),
)

-- A mask of the k low bits is the remainder.
pub bit_and_low : (k x : ℕ) → bit_and x (2 ^ k - 1) ≡ x % 2 ^ k
bit_and_low zero x = omega (arith, and_zero_below x x (omega arith))
bit_and_low (suc k) x =
    let e : (2 ^ suc k - 1) / 2 ≡ 2 ^ k - 1 = omega (arith, pow_pos k) in
    omega (
      arith,
      pow_pos k,
      and_step x (2 ^ suc k - 1),
      ap (bit_and (x / 2)) e,
      bit_and_low k (x / 2),
      half_mod k x,
    )

-- Shifted by k, the mask selects the bits from k on.
pub bit_and_high : (k x m : ℕ) → bit_and x (m * 2 ^ k) ≡ bit_and (x / 2 ^ k) m * 2 ^ k
bit_and_high zero x m = omega (
  arith,
  ap (bit_and x) (let e : m * 2 ^ 0 ≡ m = omega arith in e),
  ap (λ (t : ℕ). bit_and t m) (let e : x / 2 ^ 0 ≡ x = omega arith in e),
)
bit_and_high (suc k) x m =
    let e : m * 2 ^ suc k / 2 ≡ m * 2 ^ k = omega (arith, double k m) in
    omega (
      arith,
      double k m,
      double k (bit_and (x / 2 ^ suc k) m),
      and_step x (m * 2 ^ suc k),
      ap (bit_and (x / 2)) e,
      bit_and_high k (x / 2) m,
      ap (λ (t : ℕ). bit_and t m * 2 ^ k) (half_div k x),
    )

-- The bits from k on and the bits below k join to their sum.
pub bit_or_join : (k a b : ℕ) → b < 2 ^ k → bit_or (a * 2 ^ k) b ≡ a * 2 ^ k + b
bit_or_join zero a b h =
    let e : b ≡ 0 = omega arith in
    omega (arith, ap (bit_or (a * 2 ^ 0)) e, or_zero_below (a * 2 ^ 0) (a * 2 ^ 0) (omega arith))
bit_or_join (suc k) a b h =
    let e : a * 2 ^ suc k / 2 ≡ a * 2 ^ k = omega (arith, double k a) in
    omega (
      arith,
      double k a,
      or_step (a * 2 ^ suc k) b,
      ap (λ (t : ℕ). bit_or t (b / 2)) e,
      bit_or_join k a (b / 2) (omega arith),
    )
