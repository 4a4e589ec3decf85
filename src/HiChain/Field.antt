-- ===== src/HiChain/Field.antt =====
-- pkg/device_auth/hichain/pake_v1_ec.go: elligatorCurve25519 and the conversions of field elements.
-- math/big is arithmetic on natural numbers; ModInverse is an argument.
use dsoftbus_go.Base.{
  ℕ, zero, suc, ◌+◌, ◌-◌, ◌*◌, ◌/◌, ◌%◌, ◌^◌, ◌==◌, nat_eq, ltb, if◌then◌else◌, true, false, [],
  ◌∷◌, ◌++◌, map, length, take, drop, Option, none, some,
}
use dsoftbus_go.Base.Text.{Bytes}

-- 2^255 - 19.
abbrev pub curve_p : ℕ
curve_p = 2 ^ 255 - 19

-- (p - 1) / 2
abbrev half_p : ℕ
half_p = 2 ^ 254 - 10

abbrev curve_a : ℕ
curve_a = 486662

unfoldable pub reverse_bytes : Bytes → Bytes
reverse_bytes [] = []
reverse_bytes (b ∷ bs) = reverse_bytes bs ++ b ∷ []

-- big.Int's SetBytes: most significant byte first.
unfoldable pub set_bytes : ℕ → Bytes → ℕ
set_bytes acc [] = acc
set_bytes acc (b ∷ bs) = set_bytes (acc * 256 + b) bs

-- big.Int's Bytes: no leading zeros. A number has fewer digits than its value.
unfoldable pub big_bytes : ℕ → ℕ → Bytes
big_bytes zero x = []
big_bytes (suc fuel) x = elim (x == 0) [
  | true ↦ []
  | false ↦ big_bytes fuel (x / 256) ++ x % 256 ∷ []
]

unfoldable pub zeros : ℕ → Bytes
zeros zero = []
zeros (suc n) = 0 ∷ zeros n

unfoldable pub bytes_to_field_element : Bytes → ℕ → ℕ
bytes_to_field_element b p = set_bytes 0 (reverse_bytes b) % p

unfoldable pub field_element_to_bytes : ℕ → Bytes
field_element_to_bytes x =
    let b = big_bytes x x in
    reverse_bytes (if ltb (length b) 32 then zeros (32 - length b) ++ b else b)

-- Mod of a negated number: Go's result is not negative.
abbrev pub neg_mod : ℕ → ℕ → ℕ
neg_mod x m = (m - x % m) % m

-- Exp(b, e, m), by squaring. The fuel is the number of the exponent's binary digits.
unfoldable pub exp_mod : ℕ → ℕ → ℕ → ℕ → ℕ
exp_mod zero b e m = 1 % m
exp_mod (suc fuel) b e m =
    let rest = exp_mod fuel (b * b % m) (e / 2) m in if e % 2 == 0 then rest else rest * b % m

-- `rCopy[31] &= 0x7F`
abbrev clear_high_bit : Bytes → Bytes
clear_high_bit r = take 31 r ++ map (λ b. b % 128) (drop 31 r)

-- v^2 = u^3 + A u^2 + u
abbrev curve_square : ℕ → ℕ
curve_square u =
    let u2 = u * u % curve_p in
    let u3 = u2 * u % curve_p in let au2 = curve_a * u2 % curve_p in (u3 + au2 + u) % curve_p

-- Of the two candidates, the one on the curve.
abbrev pub elligator_point : ℕ → Bytes
elligator_point denom_inv =
    let u = neg_mod (curve_a * denom_inv) curve_p in
    let chi = exp_mod 256 (curve_square u) half_p curve_p in
    if chi == 1
    then field_element_to_bytes u
    else (let u_orig = neg_mod (curve_a * denom_inv) curve_p in
        field_element_to_bytes (neg_mod (curve_a + u_orig) curve_p))

-- 1 + 2 r^2 of the bytes read as a field element.
abbrev pub elligator_denom : Bytes → ℕ
elligator_denom r =
    let r_field = bytes_to_field_element (clear_high_bit r) curve_p in
    let r2 = r_field * r_field % curve_p in (1 + r2 * 2) % curve_p

-- `none` for a wrong length and for a division by zero.
unfoldable pub elligator_curve25519 : (ℕ → ℕ → Option ℕ) → Bytes → Option Bytes
elligator_curve25519 mod_inverse r =
    if length r == 32
    then elim (mod_inverse (elligator_denom r) curve_p) [
      | none ↦ none
      | some denom_inv ↦ some (elligator_point denom_inv)
    ]
    else none
