-- ===== src/HiChain/FieldBytes.antt =====
-- The conversions of field elements as little-endian numbers, and what elligatorCurve25519 returns.
use dsoftbus_go.Base.{
  ℕ, zero, suc, ◌+◌, ◌-◌, ◌*◌, ◌/◌, ◌%◌, ◌^◌, ◌≤◌, ◌<◌, ◌≡◌, refl, ap, sym, subst, ◌∙◌, nat_eq, ltb,
  if◌then◌else◌, Bool, true, false, [], ◌∷◌, ◌++◌, append-nil, append_assoc, length, length-append,
  Option, some, Bool-cases, Option-cases, arith, inl, inr,
}
use dsoftbus_go.Base.Bytes.{le_get, le_put, le_get-le_put, length-le_put}
use dsoftbus_go.Base.Text.{Bytes}
use dsoftbus_go.HiChain.Field.{
  curve_p, reverse_bytes, set_bytes, big_bytes, zeros, bytes_to_field_element,
  field_element_to_bytes, elligator_curve25519, elligator_denom, elligator_point, neg_mod,
}

reverse-append : (xs ys : Bytes) → reverse_bytes (xs ++ ys) ≡ reverse_bytes ys ++ reverse_bytes xs
unfolding reverse_bytes
reverse-append [] ys = sym (append-nil (reverse_bytes ys))
reverse-append (x ∷ xs) ys =
    ap (λ (t : Bytes). t ++ x ∷ []) (reverse-append xs ys)
    ∙ append_assoc (reverse_bytes ys) (reverse_bytes xs) (x ∷ [])

set_bytes-append :
    (acc : ℕ) (xs : Bytes) (b : ℕ) → set_bytes acc (xs ++ b ∷ []) ≡ set_bytes acc xs * 256 + b
unfolding set_bytes
set_bytes-append acc [] b = refl
set_bytes-append acc (x ∷ xs) b = set_bytes-append (acc * 256 + x) xs b

-- Most significant first, of the bytes from the end, is least significant first.
set_bytes-reverse : (bs : Bytes) → set_bytes 0 (reverse_bytes bs) ≡ le_get bs
unfolding set_bytes reverse_bytes le_get
set_bytes-reverse [] = refl
set_bytes-reverse (b ∷ bs) =
    omega (arith, set_bytes-append 0 (reverse_bytes bs) b, set_bytes-reverse bs)

zeros_end : (k : ℕ) → zeros k ++ 0 ∷ [] ≡ 0 ∷ zeros k
unfolding zeros
zeros_end zero = refl
zeros_end (suc k) = ap (◌∷◌ 0) (zeros_end k)

reverse-zeros : (n : ℕ) → reverse_bytes (zeros n) ≡ zeros n
unfolding reverse_bytes zeros
reverse-zeros zero = refl
reverse-zeros (suc n) = ap (λ (t : Bytes). t ++ 0 ∷ []) (reverse-zeros n) ∙ zeros_end n

zeros-le_put : (n : ℕ) → zeros n ≡ le_put n 0
unfolding zeros le_put
zeros-le_put zero = refl
zeros-le_put (suc n) = ap (◌∷◌ 0) (zeros-le_put n)

big_bytes-suc :
    (fuel x : ℕ) → big_bytes (suc fuel) (suc x) ≡ big_bytes fuel (suc x / 256) ++ suc x % 256 ∷ []
unfolding big_bytes
big_bytes-suc fuel x = ground arith

-- A number below 256^n has n digits at most.
length-big_bytes : (n fuel x : ℕ) → x < 256 ^ n → length (big_bytes fuel x) ≤ n
unfolding big_bytes
length-big_bytes n zero x h = omega arith
length-big_bytes n (suc fuel) zero h = omega arith
length-big_bytes zero (suc fuel) (suc x) h = absurd (omega arith)
length-big_bytes (suc n) (suc fuel) (suc x) h = rw (big_bytes-suc fuel x) (
    omega (
      arith,
      length-append (big_bytes fuel (suc x / 256)) (suc x % 256 ∷ []),
      length-big_bytes n fuel (suc x / 256) (omega arith),
    ))

-- The digits from the end, filled up with zeros.
digits-le_put :
    (n fuel x : ℕ)
    → x < 256 ^ n
    → x ≤ fuel
    → reverse_bytes (big_bytes fuel x) ++ zeros (n - length (big_bytes fuel x)) ≡ le_put n x
unfolding big_bytes reverse_bytes le_put
digits-le_put n zero zero h f = let all_of : n - 0 ≡ n = omega arith in rw all_of (zeros-le_put n)
digits-le_put n zero (suc x) h f = absurd (omega arith)
digits-le_put n (suc fuel) zero h f =
    let all_of : n - 0 ≡ n = omega arith in rw all_of (zeros-le_put n)
digits-le_put zero (suc fuel) (suc x) h f = absurd (omega arith)
digits-le_put (suc n) (suc fuel) (suc x) h f =
    let rest = big_bytes fuel (suc x / 256) in
    let size : suc n - length (rest ++ suc x % 256 ∷ []) ≡ n - length rest =
      omega (arith, length-append rest (suc x % 256 ∷ [])) in
    rw (big_bytes-suc fuel x, reverse-append rest (suc x % 256 ∷ []), size)
      (ap (◌∷◌ (suc x % 256)) (digits-le_put n fuel (suc x / 256) (omega arith) (omega arith)))

field_element-le_put : (x : ℕ) → x < 256 ^ 32 → field_element_to_bytes x ≡ le_put 32 x
unfolding field_element_to_bytes zeros le_put
field_element-le_put x h =
    let b = big_bytes x x in
    let enough : length b ≤ 32 = length-big_bytes 32 x x h in
    let filled : reverse_bytes b ++ zeros (32 - length b) ≡ le_put 32 x =
      digits-le_put 32 x x h (omega arith) in
    elim (Bool-cases (ltb (length b) 32)) [
      | inl e ↦
          rw (e, reverse-append (zeros (32 - length b)) b, reverse-zeros (32 - length b)) filled
      | inr e ↦
          let full : 32 - length b ≡ 0 = ground arith in
          rw e (
            sym (append-nil (reverse_bytes b))
            ∙ subst (λ (k : ℕ). reverse_bytes b ++ zeros k ≡ le_put 32 x) full filled)
    ]

pub below_width : (x : ℕ) → x < curve_p → x < 256 ^ 32
below_width x h = omega arith

-- bytesToFieldElement, which reverses the bytes and reads them from the most significant, is the
-- little-endian number modulo p; fieldElementToBytes, which fills up the shortest form and reverses it, is
-- the little-endian form of 32 bytes; on field elements the first undoes the second.
pub field_bytes_lem :
    (b : Bytes) (p x : ℕ)
    → x < curve_p
    → (bytes_to_field_element b p ≡ le_get b % p)
      × (field_element_to_bytes x ≡ le_put 32 x)
      × (bytes_to_field_element (field_element_to_bytes x) curve_p ≡ x)
unfolding bytes_to_field_element
field_bytes_lem b p x h =
    let written : field_element_to_bytes x ≡ le_put 32 x =
      field_element-le_put x (below_width x h) in
    (
      ap (λ (t : ℕ). t % p) (set_bytes-reverse b),
      written,
      rw (written, set_bytes-reverse (le_put 32 x))
          (omega (arith, le_get-le_put 32 x (below_width x h))),
    )

element-IsElement :
    (x : ℕ)
    → x < curve_p
    → (length (field_element_to_bytes x) ≡ 32) × (le_get (field_element_to_bytes x) < curve_p)
element-IsElement x h =
    rw (field_element-le_put x (below_width x h))
      (length-le_put 32 x, omega (arith, le_get-le_put 32 x (below_width x h)))

neg_mod-lt : (x : ℕ) → neg_mod x curve_p < curve_p
neg_mod-lt x = omega arith

either-IsElement :
    (c : Bool) (x y : ℕ)
    → x < curve_p
    → y < curve_p
    → (length (if c then field_element_to_bytes x else field_element_to_bytes y) ≡ 32)
      × (le_get (if c then field_element_to_bytes x else field_element_to_bytes y) < curve_p)
either-IsElement true x y hx hy = element-IsElement x hx
either-IsElement false x y hx hy = element-IsElement y hy

point-IsElement :
    (i : ℕ) → (length (elligator_point i) ≡ 32) × (le_get (elligator_point i) < curve_p)
point-IsElement i = either-IsElement _ _ _ (neg_mod-lt _) (neg_mod-lt _)

-- elligatorCurve25519 returns the 32 bytes of a field element, least significant byte first.
pub elligator_curve25519_lem :
    (mod_inverse : ℕ → ℕ → Option ℕ) (r out : Bytes)
    → elligator_curve25519 mod_inverse r ≡ some out
    → (length r ≡ 32) × (length out ≡ 32) × (le_get out < curve_p)
unfolding elligator_curve25519
elligator_curve25519_lem inv r out e = elim (Option-cases (inv (elligator_denom r) curve_p)) [
  | inl e' ↦ absurd (ground arith)
  | inr (i, e') ↦
      let size : length r ≡ 32 = ground arith in
      let made : elligator_point i ≡ out = ground arith in
      let (l, b) =
        subst (λ (x : Bytes). (length x ≡ 32) × (le_get x < curve_p)) made (point-IsElement i) in
      (size, l, b)
]
