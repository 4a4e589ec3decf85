-- ===== src/Base/Bytes.antt =====
-- encoding/binary: numbers as bytes, least significant byte first or last.
use Prim.Native.Nat.{ℕ, zero, suc, ◌+◌, ◌*◌, ◌/◌, ◌%◌, ◌^◌, ◌<◌}
use mathlib.Core.Path.{◌≡◌, refl, ap}
use mathlib.Core.List.{List, [], ◌∷◌}
use native.Mathlib.Omega.{arith}
use dsoftbus_go.Base.Lists.{length, All}

abbrev pub IsByte : ℕ → Type 0
IsByte b = b < 256

-- `le_put 4 v` is what LittleEndian.PutUint32 writes, `le_put 8 v` PutUint64.
unfoldable pub le_put : ℕ → ℕ → List ℕ
le_put zero v = []
le_put (suc k) v = v % 256 ∷ le_put k (v / 256)

-- LittleEndian.Uint32 of four bytes, Uint64 of eight.
unfoldable pub le_get : List ℕ → ℕ
le_get [] = 0
le_get (b ∷ bs) = b + 256 * le_get bs

pub length-le_put : (k v : ℕ) → length (le_put k v) ≡ k
unfolding le_put
length-le_put zero v = refl
length-le_put (suc k) v = ap suc (length-le_put k (v / 256))

pub le_get-le_put : (k v : ℕ) → v < 256 ^ k → le_get (le_put k v) ≡ v
unfolding le_put le_get
le_get-le_put zero v h = omega arith
le_get-le_put (suc k) v h = omega (arith, le_get-le_put k (v / 256) (omega arith))

pub le_put-IsByte : (k v : ℕ) → All IsByte (le_put k v)
unfolding le_put
le_put-IsByte zero v = tt
le_put-IsByte (suc k) v = (omega arith, le_put-IsByte k (v / 256))

pub le_put-le_get : (bs : List ℕ) → All IsByte bs → le_put (length bs) (le_get bs) ≡ bs
unfolding le_put le_get
le_put-le_get [] h = refl
le_put-le_get (b ∷ bs) (hb, hs) =
    let low : (b + 256 * le_get bs) % 256 ≡ b = omega arith in
    let high : (b + 256 * le_get bs) / 256 ≡ le_get bs = omega arith in
    rw (low, high) (ap (◌∷◌ b) (le_put-le_get bs hs))

pub le_get-lt : (k : ℕ) (bs : List ℕ) → All IsByte bs → length bs ≡ k → le_get bs < 256 ^ k
unfolding le_get
le_get-lt zero [] h e = omega arith
le_get-lt zero (b ∷ bs) h e = absurd (omega arith)
le_get-lt (suc k) [] h e = absurd (omega arith)
le_get-lt (suc k) (b ∷ bs) (hb, hs) e = omega (arith, le_get-lt k bs hs (omega arith))

-- BigEndian.PutUint16 and Uint16.
unfoldable pub be16_put : ℕ → List ℕ
be16_put v = v / 256 % 256 ∷ v % 256 ∷ []

abbrev pub be16_get : ℕ → ℕ → ℕ
be16_get hi lo = hi * 256 + lo
