-- ===== src/SessionKey/KeyLists.antt =====
-- The key list of one authentication id: its indices grow along the list.
use dsoftbus_go.Base.{
  ℕ, ◌+◌, ◌-◌, ◌<◌, ◌^◌, ◌≡◌, ◌≢◌, refl, ap, arith, ◌==◌, List, [], ◌∷◌, ◌++◌, last?, Option, none,
  some, All, Bool-cases, inl, inr,
}
use dsoftbus_go.Base.Int.{
  ℤ, pos, negsuc, pos_part, neg_part, ◌+ℤ◌, uint32, int32, IsInt32, int_eq, int_beq_iff,
}
use dsoftbus_go.SessionKey.{SessionKey, next_index, find_key, touch, touch_last}

infix 50 ◌<ℤ◌
abbrev pub ◌<ℤ◌ : ℤ → ℤ → Type 0
a <ℤ b = pos_part a + neg_part b < pos_part b + neg_part a

abbrev pub Above : ℤ → List SessionKey → Type 0
Above i = All (λ (k : SessionKey). i <ℤ k.index)

abbrev pub IsOrdered : List SessionKey → Type 0
IsOrdered [] = Unit {0}
IsOrdered (k ∷ l) = IsInt32 k.index × Above k.index l × IsOrdered l

-- The next index does not wrap.
abbrev pub HasRoom : Option SessionKey → Type 0
HasRoom none = Unit {0}
HasRoom (some k) = k.index ≢ pos (2 ^ 31 - 1)

room_above :
    (i : ℤ)
    → IsInt32 i
    → i ≢ pos (2 ^ 31 - 1)
    → (IsInt32 (int32 (uint32 (i +ℤ pos 1)))) × (i <ℤ int32 (uint32 (i +ℤ pos 1)))
unfolding ◌+ℤ◌ int32 uint32
room_above (pos n) h r = let ne : n ≢ 2 ^ 31 - 1 = λ e. r (ap pos e) in (ground arith, ground arith)
room_above (negsuc n) h r = (ground arith, ground arith)

pub next_index-Above :
    (l : List SessionKey)
    → IsOrdered l
    → HasRoom (last? l)
    → IsInt32 (next_index l) × All (λ (k : SessionKey). k.index <ℤ next_index l) l
unfolding next_index
next_index-Above [] o r = (omega arith, tt)
next_index-Above (k ∷ []) o r = let a = room_above k.index o.0 r in (a.0, (a.1, tt))
next_index-Above (k ∷ k' ∷ l) o r =
    let (fits, above) = next_index-Above (k' ∷ l) o.2 r in
    (fits, (omega (arith, o.1.0, above.0), above))

Above-append :
    (i : ℤ) (l : List SessionKey) (k : SessionKey)
    → Above i l
    → i <ℤ k.index
    → Above i (l ++ k ∷ [])
Above-append i [] k a h = (h, tt)
Above-append i (x ∷ l) k (p, a) h = (p, Above-append i l k a h)

pub IsOrdered-append :
    (l : List SessionKey) (k : SessionKey)
    → IsOrdered l
    → IsInt32 k.index
    → All (λ (x : SessionKey). x.index <ℤ k.index) l
    → IsOrdered (l ++ k ∷ [])
IsOrdered-append [] k o f h = (f, tt, tt)
IsOrdered-append (x ∷ l) k (fx, a, o) f (p, h) =
    (fx, Above-append x.index l k a p, IsOrdered-append l k o f h)

-- A key that is found is found in a longer list too.
pub find_key-append :
    (i : ℤ) (l r : List SessionKey) (k : SessionKey)
    → find_key i l ≡ some k
    → find_key i (l ++ r) ≡ some k
unfolding find_key
find_key-append i [] r k e = absurd (cc e)
find_key-append i (x ∷ l) r k e = ground (arith, find_key-append i l r k)

-- Under its own index the newest key is found, if all others have smaller ones.
pub find_key-newest :
    (l : List SessionKey) (k : SessionKey)
    → All (λ (x : SessionKey). x.index <ℤ k.index) l
    → find_key k.index (l ++ k ∷ []) ≡ some k
unfolding find_key
find_key-newest [] k h = ground (arith, int_beq_iff k.index k.index)
find_key-newest (x ∷ l) k (p, h) =
    ground (arith, int_beq_iff x.index k.index, find_key-newest l k h)

find_key-Above :
    (i : ℤ) (l : List SessionKey) (k : SessionKey) → Above i l → last? l ≡ some k → i <ℤ k.index
find_key-Above i [] k a e = absurd (cc e)
find_key-Above i (x ∷ []) k a e = ground arith
find_key-Above i (x ∷ y ∷ l) k a e = find_key-Above i (y ∷ l) k a.1 e

pub find_key-last :
    (l : List SessionKey) (k : SessionKey)
    → IsOrdered l
    → last? l ≡ some k
    → find_key k.index l ≡ some k
unfolding find_key
find_key-last [] k o e = absurd (cc e)
find_key-last (x ∷ []) k o e = ground (arith, int_beq_iff x.index k.index)
find_key-last (x ∷ y ∷ l) k o e = ground (
  arith,
  int_beq_iff x.index k.index,
  find_key-Above x.index (y ∷ l) k o.1 e,
  find_key-last (y ∷ l) k o.2 e,
)

-- The bytes of the key that an index stands for. A lookup changes times only.
abbrev pub key_bytes : Option SessionKey → Option (List ℕ)
key_bytes none = none
key_bytes (some k) = some k.key

pub key_bytes-touch :
    (i j : ℤ) (now : ℕ) (l : List SessionKey)
    → key_bytes (find_key i (touch j now l)) ≡ key_bytes (find_key i l)
unfolding find_key touch
key_bytes-touch i j now [] = refl
key_bytes-touch i j now (k ∷ l) = ground (arith, key_bytes-touch i j now l)

pub key_bytes-touch_last :
    (i : ℤ) (now : ℕ) (l : List SessionKey)
    → key_bytes (find_key i (touch_last now l)) ≡ key_bytes (find_key i l)
unfolding find_key touch_last
key_bytes-touch_last i now [] = refl
key_bytes-touch_last i now (k ∷ []) = ground arith
key_bytes-touch_last i now (k ∷ k' ∷ l) = ground (arith, key_bytes-touch_last i now (k' ∷ l))

Above-touch : (i j : ℤ) (now : ℕ) (l : List SessionKey) → Above i l → Above i (touch j now l)
unfolding touch
Above-touch i j now [] a = tt
Above-touch i j now (k ∷ l) (p, a) = elim (Bool-cases (k.index == j)) [
  | inl e ↦ rw e (p, a)
  | inr e ↦ rw e (p, Above-touch i j now l a)
]

pub IsOrdered-touch :
    (j : ℤ) (now : ℕ) (l : List SessionKey) → IsOrdered l → IsOrdered (touch j now l)
unfolding touch
IsOrdered-touch j now [] o = tt
IsOrdered-touch j now (k ∷ l) (f, a, o) = elim (Bool-cases (k.index == j)) [
  | inl e ↦ rw e (f, a, o)
  | inr e ↦ rw e (f, Above-touch k.index j now l a, IsOrdered-touch j now l o)
]

Above-touch_last : (i : ℤ) (now : ℕ) (l : List SessionKey) → Above i l → Above i (touch_last now l)
unfolding touch_last
Above-touch_last i now [] a = tt
Above-touch_last i now (k ∷ []) a = a
Above-touch_last i now (k ∷ k' ∷ l) (p, a) = (p, Above-touch_last i now (k' ∷ l) a)

pub IsOrdered-touch_last :
    (now : ℕ) (l : List SessionKey) → IsOrdered l → IsOrdered (touch_last now l)
unfolding touch_last
IsOrdered-touch_last now [] o = tt
IsOrdered-touch_last now (k ∷ []) o = o
IsOrdered-touch_last now (k ∷ k' ∷ l) (f, a, o) =
    (f, Above-touch_last k.index now (k' ∷ l) a, IsOrdered-touch_last now (k' ∷ l) o)
