-- ===== src/SessionKey/KeyRemoval.antt =====
-- The key list of one authentication id, when a key is taken out.
use dsoftbus_go.Base.{
  ◌≡◌, ◌≢◌, refl, arith, ◌==◌, List, [], ◌∷◌, ◌++◌, none, some, All, Bool-cases, Option-cases, inl,
  inr, ◌⊎◌,
}
use dsoftbus_go.Base.Int.{ℤ, int_eq, int_beq_iff}
use dsoftbus_go.SessionKey.{SessionKey, find_key, without_key}
use dsoftbus_go.SessionKey.KeyLists.{◌<ℤ◌, Above, IsOrdered}

-- The first key goes, or it stays and one goes behind it.
without-cons :
    (j : ℤ) (k : SessionKey) (l l' : List SessionKey)
    → without_key j (k ∷ l) ≡ some l'
    → ((k.index ≡ j) × (l' ≡ l))
      ⊎ ((k.index ≢ j) × (r : List SessionKey) × (without_key j l ≡ some r) × (l' ≡ k ∷ r))
unfolding without_key
without-cons j k l l' e = elim (Bool-cases (k.index == j)) [
  | inl hit ↦ inl (ground (arith, int_beq_iff k.index j), ground arith)
  | inr miss ↦ elim (Option-cases (without_key j l)) [
    | inl gone ↦ absurd (cc (rw (miss, gone, without_key) at e))
    | inr (r, left) ↦ inr (ground (arith, int_beq_iff k.index j), r, left, ground (arith, left))
  ]
]

without-nil : (j : ℤ) (l' : List SessionKey) → without_key j [] ≢ some l'
unfolding without_key
without-nil j l' e = cc

Above-without :
    (i j : ℤ) (l l' : List SessionKey) → without_key j l ≡ some l' → Above i l → Above i l'
Above-without i j [] l' e a = absurd (without-nil j l' e)
Above-without i j (k ∷ l) l' e (p, a) = elim (without-cons j k l l' e) [
  | inl (hit, same) ↦ rw same a
  | inr (miss, r, left, same) ↦ rw same (p, Above-without i j l r left a)
]

pub IsOrdered-without :
    (j : ℤ) (l l' : List SessionKey) → without_key j l ≡ some l' → IsOrdered l → IsOrdered l'
IsOrdered-without j [] l' e o = absurd (without-nil j l' e)
IsOrdered-without j (k ∷ l) l' e (f, a, o) = elim (without-cons j k l l' e) [
  | inl (hit, same) ↦ rw same o
  | inr (miss, r, left, same) ↦
      rw same (f, Above-without k.index j l r left a, IsOrdered-without j l r left o)
]

find_key-Above-none : (i : ℤ) (l : List SessionKey) → Above i l → find_key i l ≡ none
unfolding find_key
find_key-Above-none i [] a = refl
find_key-Above-none i (k ∷ l) (p, a) =
    ground (arith, int_beq_iff k.index i, find_key-Above-none i l a)

-- A key that was taken out is found no more.
pub find_key-without :
    (j : ℤ) (l l' : List SessionKey)
    → without_key j l ≡ some l'
    → IsOrdered l
    → find_key j l' ≡ none
unfolding find_key
find_key-without j [] l' e o = absurd (without-nil j l' e)
find_key-without j (k ∷ l) l' e (f, a, o) = elim (without-cons j k l l' e) [
  | inl (hit, same) ↦ rw same (find_key-Above-none j l (rw hit at a))
  | inr (miss, r, left, same) ↦
      rw same (ground (arith, int_beq_iff k.index j, find_key-without j l r left o))
]

-- The other keys are found as before.
pub find_key-without_other :
    (i j : ℤ) (l l' : List SessionKey)
    → without_key j l ≡ some l'
    → i ≢ j
    → find_key i l' ≡ find_key i l
unfolding find_key
find_key-without_other i j [] l' e h = absurd (without-nil j l' e)
find_key-without_other i j (k ∷ l) l' e h = elim (without-cons j k l l' e) [
  | inl (hit, same) ↦ rw same (ground (arith, int_beq_iff k.index i))
  | inr (miss, r, left, same) ↦ rw same (ground (arith, find_key-without_other i j l r left h))
]

pub without_key-none : (j : ℤ) (l : List SessionKey) → without_key j l ≡ none → find_key j l ≡ none
unfolding find_key without_key
without_key-none j [] e = refl
without_key-none j (k ∷ l) e = elim (Bool-cases (k.index == j)) [
  | inl hit ↦ absurd (cc (rw (hit, without_key) at e))
  | inr miss ↦ elim (Option-cases (without_key j l)) [
    | inl gone ↦ rw (miss, find_key) (without_key-none j l gone)
    | inr (r, left) ↦ absurd (cc (rw (miss, left, without_key) at e))
  ]
]

-- Taking the newest key out leaves the list that it was added to.
pub without_key-newest :
    (l : List SessionKey) (k : SessionKey)
    → All (λ (x : SessionKey). x.index <ℤ k.index) l
    → without_key k.index (l ++ k ∷ []) ≡ some l
unfolding without_key
without_key-newest [] k h = ground (arith, int_beq_iff k.index k.index)
without_key-newest (x ∷ l) k (p, h) =
    ground (arith, int_beq_iff x.index k.index, without_key-newest l k h)
