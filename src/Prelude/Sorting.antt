-- ===== src/Prelude/Sorting.antt =====
-- `sort_by`, `sort_unstable` and `dedup` as insertion sorts. A stable sort and an unstable one give
-- the same list where the comparison is a lawful order of the whole values.
use Prim.Native.Nat.{Ordering}
use Prim.Native.Nat.Ordering.{lt, eq, gt}
use mathlib.Core.List.{List, [], ◌∷◌}
use openmemory.Prelude.Order.{Ord}

module _ {ℓ} {A : Type ℓ} where
  -- The elements that compare equal keep their order.
  unfoldable pub insert_sorted : (A → A → Ordering) → A → List A → List A
  insert_sorted cmp x [] = x ∷ []
  insert_sorted cmp x (y ∷ ys) = elim (cmp x y) [
    | lt ↦ x ∷ y ∷ ys
    | eq ↦ x ∷ y ∷ ys
    | gt ↦ y ∷ insert_sorted cmp x ys
  ]

  -- `list.sort_by(cmp)`
  unfoldable pub sort_by : (A → A → Ordering) → List A → List A
  unfolding insert_sorted
  sort_by cmp [] = []
  sort_by cmp (x ∷ xs) = insert_sorted cmp x (sort_by cmp xs)

module _ {ℓ} {A : Type ℓ} ⦃o : Ord A⦄ where
  -- Keeps the first of each run of equal elements: `last` is the one kept before.
  dedup_after : A → List A → List A
  dedup_after last [] = []
  dedup_after last (x ∷ xs) = elim (o.cmp last x) [
    | eq ↦ dedup_after last xs
    | lt ↦ x ∷ dedup_after x xs
    | gt ↦ x ∷ dedup_after x xs
  ]

  -- `list.dedup()`
  unfoldable pub dedup : List A → List A
  unfolding dedup_after
  dedup [] = []
  dedup (x ∷ xs) = x ∷ dedup_after x xs
