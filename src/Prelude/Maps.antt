-- ===== src/Prelude/Maps.antt =====
-- `BTreeMap` and `BTreeSet`: entries in ascending order of their keys, as iteration yields them,
-- with the laws of a lookup after an insertion.
use Prim.Native.Nat.Ordering.{lt, eq, gt}
use mathlib.Core.Path.{◌≡◌, refl, subst}
use mathlib.Core.Logic.{inl, inr}
use mathlib.Core.Bool.{Bool, false, ◌||◌}
use mathlib.Core.Option.{Option, none, some}
use mathlib.Core.List.{List, [], ◌∷◌, ◌++◌, map}
use native.Mathlib.Omega.{arith}
use openmemory.Prelude.Tests.{if◌then◌else◌, is_some, Bool-cases}
use openmemory.Prelude.Lists.{All}
use openmemory.Prelude.Order.{Ord, ◌==◌, ==→≡}

abbrev pub BTreeMap {ℓ κ} : Type ℓ → Type κ → Type (ℓ ⊔ κ)
BTreeMap K V = List (K × V)

abbrev pub BTreeSet {ℓ} : Type ℓ → Type ℓ
BTreeSet K = List K

abbrev pub keys {ℓ κ} : {K : Type ℓ} {V : Type κ} → BTreeMap K V → List K
keys m = map (λ e. e.0) m

module _ {ℓ} {K : Type ℓ} ⦃o : Ord K⦄ where
  -- `set.insert(key)`, without the answer
  unfoldable pub insert : K → BTreeSet K → BTreeSet K
  insert k [] = k ∷ []
  insert k (j ∷ s) = elim (o.cmp k j) [ lt ↦ k ∷ j ∷ s | eq ↦ k ∷ s | gt ↦ j ∷ insert k s ]

  -- `set.contains(key)`; `set.insert(key)` answers its negation.
  abbrev pub contains : K → BTreeSet K → Bool
  contains k [] = false
  contains k (j ∷ s) = k == j || contains k s

  -- `collect::<BTreeSet<_>>()`
  abbrev pub to_set : List K → BTreeSet K
  to_set [] = []
  to_set (k ∷ ks) = insert k (to_set ks)

  pub contains-append :
      (k : K) (xs ys : List K) → contains k (xs ++ ys) ≡ (contains k xs || contains k ys)
  contains-append k [] ys = refl
  contains-append k (x ∷ xs) ys = ground (arith, contains-append k xs ys)

  -- Every element lies above `k`.
  abbrev pub Above : K → List K → Type 0
  Above k s = All (λ j. o.cmp k j ≡ lt) s

  abbrev pub IsAscending : List K → Type 0
  IsAscending [] = Unit
  IsAscending (k ∷ s) = Above k s × IsAscending s

  pub contains-insert :
      (k j : K) (s : BTreeSet K) → contains j (insert k s) ≡ (j == k || contains j s)
  unfolding insert
  contains-insert k j [] = refl
  contains-insert k j (i ∷ s) =
      ground (arith, contains-insert k j s, o.eq_of_cmp k i, o.cmp_refl k, o.cmp_refl i)

  pub Above-insert : (i k : K) (s : BTreeSet K) → o.cmp i k ≡ lt → Above i s → Above i (insert k s)
  unfolding insert
  Above-insert i k [] h a = (h, tt)
  Above-insert i k (j ∷ s) h a = ground (arith, Above-insert i k s h)

  pub Above-trans : (i k : K) (s : List K) → o.cmp i k ≡ lt → Above k s → Above i s
  Above-trans i k [] h a = tt
  Above-trans i k (j ∷ s) h a = (o.lt_trans i k j h a.0, Above-trans i k s h a.1)

  pub insert-IsAscending : (k : K) (s : BTreeSet K) → IsAscending s → IsAscending (insert k s)
  unfolding insert
  insert-IsAscending k [] a = (tt, tt)
  insert-IsAscending k (j ∷ s) a = ground (
    arith,
    insert-IsAscending k s a.1,
    Above-trans k j s,
    Above-insert j k s,
    o.cmp_flip k j,
    o.eq_of_cmp k j,
  )

  pub to_set-IsAscending : (ks : List K) → IsAscending (to_set ks)
  to_set-IsAscending [] = tt
  to_set-IsAscending (k ∷ ks) = insert-IsAscending k (to_set ks) (to_set-IsAscending ks)

  pub contains-to_set : (j : K) (ks : List K) → contains j (to_set ks) ≡ contains j ks
  contains-to_set j [] = refl
  contains-to_set j (k ∷ ks) = ground (arith, contains-insert k j (to_set ks), contains-to_set j ks)

none-ne-some {κ} : {V : Type κ} (v : V) → none ≡ some v → ⊥
none-ne-some v e = cc

module _ {ℓ κ} {K : Type ℓ} {V : Type κ} ⦃o : Ord K⦄ where
  -- `map.insert(key, value)`, without the old value
  unfoldable pub insert_value : K → V → BTreeMap K V → BTreeMap K V
  insert_value k v [] = (k, v) ∷ []
  insert_value k v ((j, w) ∷ m) = elim (o.cmp k j) [
    | lt ↦ (k, v) ∷ (j, w) ∷ m
    | eq ↦ (k, v) ∷ m
    | gt ↦ (j, w) ∷ insert_value k v m
  ]

  -- `map.get(key)`
  abbrev pub get : K → BTreeMap K V → Option V
  get k [] = none
  get k ((j, w) ∷ m) = if k == j then some w else get k m

  -- `map.contains_key(key)`; `map.insert(key, _).is_some()` is this, before the write.
  abbrev pub contains_key : K → BTreeMap K V → Bool
  contains_key k m = is_some (get k m)

  pub get-insert_value :
      (k j : K) (v : V) (m : BTreeMap K V)
      → get j (insert_value k v m) ≡ (if j == k then some v else get j m)
  unfolding insert_value
  get-insert_value k j v [] = refl
  get-insert_value k j v ((i, w) ∷ m) = ground (
    arith,
    get-insert_value k j v m,
    o.eq_of_cmp k i,
    o.eq_of_cmp j k,
    o.eq_of_cmp j i,
    o.cmp_refl i,
  )

  -- What holds of every entry holds of the one that a lookup finds.
  pub All-get {μ} :
      (P : K × V → Type μ) (m : BTreeMap K V) (k : K) (v : V)
      → All P m
      → get k m ≡ some v
      → P (k, v)
  All-get P [] k v a e = absurd (none-ne-some v e)
  All-get P ((j, w) ∷ m) k v a e = elim (Bool-cases (k == j)) [
    | inl same ↦
        let p : w ≡ v = ground arith in
        let q : k ≡ j = ==→≡ k j same in rw q (subst (λ x. P (j, x)) p a.0)
    | inr other ↦ All-get P m k v a.1 (rw other at e)
  ]

  pub All-insert_value {μ} :
      (P : K × V → Type μ) (k : K) (v : V) (m : BTreeMap K V)
      → P (k, v)
      → All P m
      → All P (insert_value k v m)
  unfolding insert_value
  All-insert_value P k v [] p a = (p, tt)
  All-insert_value P k v ((j, w) ∷ m) p a = ground (arith, All-insert_value P k v m p)

  pub contains-keys : (k : K) (m : BTreeMap K V) → contains k (keys m) ≡ contains_key k m
  contains-keys k [] = refl
  contains-keys k ((j, w) ∷ m) = ground (arith, contains-keys k m)

  pub get_absent : (k : K) (m : BTreeMap K V) → contains k (keys m) ≡ false → get k m ≡ none
  get_absent k m h = ground (arith, contains-keys k m)
