-- ===== src/Base/Text.antt =====
-- Go's strings and byte slices as lists of bytes, and their comparison.
use mathlib.Core.Path.{◌≡◌}
use mathlib.Core.Logic.{◌↔◌}
use mathlib.Core.Bool.{Bool, true, false, ◌&&◌}
use mathlib.Core.List.{List, [], ◌∷◌}
use native.Mathlib.Omega.{arith}
use Prim.Native.Nat.{ℕ}
use dsoftbus_go.Base.Tests.{Comparable, ◌==◌, nat_eq}

abbrev pub Bytes : Type 0
Bytes = List ℕ

-- Keys longer than one number are compared from the front.
abbrev same_items : {K : Type 0} ⦃e : Comparable K⦄ → List K → List K → Bool
same_items [] [] = true
same_items [] (y ∷ ys) = false
same_items (x ∷ xs) [] = false
same_items (x ∷ xs) (y ∷ ys) = x == y && same_items xs ys

pub same_items_iff :
    {K : Type 0} ⦃e : Comparable K⦄ (xs ys : List K) → (same_items xs ys ≡ true) ↔ (xs ≡ ys)
same_items_iff [] [] = ground arith
same_items_iff [] (y ∷ ys) = ground arith
same_items_iff (x ∷ xs) [] = ground arith
same_items_iff ⦃e⦄ (x ∷ xs) (y ∷ ys) = ground (arith, same_items_iff xs ys, e.same_key_iff x y)

instance abbrev pub list_eq : {K : Type 0} ⦃e : Comparable K⦄ → Comparable (List K)
list_eq = record { same_key = same_items; same_key_iff = same_items_iff }

abbrev pub is_empty : Bytes → Bool
is_empty [] = true
is_empty (b ∷ bs) = false
