-- ===== src/Base/Table.antt =====
-- Go's maps, as association lists. Iteration goes along the list: Go's order is any order, so what
-- is proved of every table holds for each order.
use mathlib.Core.Path.{◌≡◌, refl}
use mathlib.Core.Option.{Option, none, some}
use mathlib.Core.List.{List, [], ◌∷◌}
use native.Mathlib.Omega.{arith}
use dsoftbus_go.Base.Tests.{Comparable, ◌==◌, if◌then◌else◌}

abbrev pub Table : Type 0 → Type 0 → Type 0
Table K V = List (K × V)

module _ {K V : Type 0} ⦃e : Comparable K⦄ where
  unfoldable pub lookup : K → Table K V → Option V
  lookup key [] = none
  lookup key (entry ∷ rest) = if entry.0 == key then some entry.1 else lookup key rest

  -- An entry of the key is overwritten where it stands; a new key comes last.
  unfoldable pub insert : K → V → Table K V → Table K V
  insert key value [] = (key, value) ∷ []
  insert key value (entry ∷ rest) =
      if entry.0 == key then (key, value) ∷ rest else entry ∷ insert key value rest

  unfoldable pub delete : K → Table K V → Table K V
  delete key [] = []
  delete key (entry ∷ rest) = if entry.0 == key then delete key rest else entry ∷ delete key rest

  pub lookup-insert :
      (key other : K) (value : V) (t : Table K V)
      → lookup other (insert key value t) ≡ (if key == other then some value else lookup other t)
  unfolding lookup insert
  lookup-insert key other value [] = refl
  lookup-insert key other value (entry ∷ rest) = ground (
    arith,
    lookup-insert key other value rest,
    e.same_key_iff entry.0 other,
    e.same_key_iff entry.0 key,
    e.same_key_iff key other,
  )

  pub lookup-delete :
      (key other : K) (t : Table K V)
      → lookup other (delete key t) ≡ (if key == other then none else lookup other t)
  unfolding lookup delete
  lookup-delete key other [] = ground arith
  lookup-delete key other (entry ∷ rest) = ground (
    arith,
    lookup-delete key other rest,
    e.same_key_iff entry.0 other,
    e.same_key_iff entry.0 key,
    e.same_key_iff key other,
  )
