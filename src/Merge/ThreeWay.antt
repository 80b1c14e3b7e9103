-- ===== src/Merge/ThreeWay.antt =====
-- `three_way.rs`: the classification of one field, of a map of fields and of the lifecycle.
pub mod Fields
use openmemory.Prelude.{
  ℕ, ◌≡◌, ◌≢◌, ◌⊎◌, inl, inr, refl, Bool, true, false, not, ◌&&◌, Option, none, some, List, [], ◌∷◌,
  ◌++◌, Result, ok, err, MergeErrorCode, if◌then◌else◌, arith,
}
use openmemory.Prelude.Results.{◌>>=◌}
use openmemory.Prelude.Order.{Ord, ◌==◌, ==→≡, ≡→==, ==_refl, ==_sym, list_ord, option_ord, nat_ord}
use openmemory.Prelude.Maps.{BTreeMap, BTreeSet, keys, get, insert_value, to_set}
use openmemory.Text.{Text}
use openmemory.Merge.Model.{Lifecycle, lifecycle_ord}

pub data ThreeWaySource : Type 0 where
  base source target identical_change : ThreeWaySource

pub record ThreeWayValue {ℓ} (T : Type ℓ) : Type ℓ where
  pub value : T
  pub source : ThreeWaySource

module _ {ℓ} {T : Type ℓ} ⦃o : Ord T⦄ where
  unfoldable pub merge_value : T → T → T → Result (ThreeWayValue T)
  merge_value b s t =
      if s == b && t == b
      then ok (record { value = b; source = base })
      else if not (s == b) && t == b
      then ok (record { value = s; source = source })
      else if s == b && not (t == b)
      then ok (record { value = t; source = target })
      else if s == t
      then ok (record { value = s; source = identical_change })
      else err MergeErrorCode.three_way_conflict

pub record FieldMerge : Type 0 where
  pub values : BTreeMap Text Text
  pub sources : BTreeMap Text ThreeWaySource

-- One round of the loop over the keys.
unfoldable pub add_field : Text → ThreeWayValue (Option Text) → FieldMerge → FieldMerge
add_field key merged m = record {
  values = elim merged.value [ none ↦ m.values | some value ↦ insert_value key value m.values ];
  sources = insert_value key merged.source m.sources;
}

module _ (b s t : BTreeMap Text Text) where
  unfoldable pub merge_field : Text → Result (ThreeWayValue (Option Text))
  merge_field key = merge_value (get key b) (get key s) (get key t)

  unfoldable pub merge_keys : List Text → FieldMerge → Result FieldMerge
  merge_keys [] m = ok m
  merge_keys (key ∷ rest) m = do merged ← merge_field key; merge_keys rest (add_field key merged m)

  abbrev pub all_keys : BTreeSet Text
  all_keys = to_set (keys b ++ (keys s ++ keys t))

  unfoldable pub merge_fields : Result FieldMerge
  merge_fields = merge_keys all_keys (record { values = []; sources = [] })

unfoldable pub merge_lifecycle :
    Lifecycle → Lifecycle → Lifecycle → Result (ThreeWayValue Lifecycle)
unfolding merge_value
merge_lifecycle b s t = merge_value b s t

-- The other side's name.
abbrev pub swap_source : ThreeWaySource → ThreeWaySource
swap_source base = base
swap_source source = target
swap_source target = source
swap_source identical_change = identical_change

abbrev pub swap_sides {ℓ} : {T : Type ℓ} → Result (ThreeWayValue T) → Result (ThreeWayValue T)
swap_sides (ok v) = ok (record { value = v.value; source = swap_source v.source })
swap_sides (err e) = err e

module _ {ℓ} {T : Type ℓ} ⦃o : Ord T⦄ where
  -- Exchanging source and target gives the same value or the same conflict, with the name of the
  -- side exchanged: neither side wins.
  pub merge_value-swap : (b s t : T) → merge_value b t s ≡ swap_sides (merge_value b s t)
  unfolding merge_value
  merge_value-swap b s t =
      ground (arith, o.cmp_flip s t, o.eq_of_cmp s t, o.eq_of_cmp s b, o.eq_of_cmp t b)

  -- A merge fails only with the code of a conflict, and only where both sides changed the base, to
  -- different values.
  pub merge_value_conflict :
      (b s t : T) (e : MergeErrorCode)
      → merge_value b s t ≡ err e
      → (e ≡ MergeErrorCode.three_way_conflict) × (s ≢ b) × (t ≢ b) × (s ≢ t)
  unfolding merge_value
  merge_value_conflict b s t e h = (
    ground arith,
    λ p. ground (arith, ≡→== s b p),
    λ p. ground (arith, ≡→== t b p),
    λ p. ground (arith, ≡→== s t p),
  )

  -- Without a conflict, a side that left the base alone yields to the other side, and two sides
  -- that agree keep their common value.
  pub merge_value_ok :
      (b s t : T) (v : ThreeWayValue T)
      → merge_value b s t ≡ ok v
      → (s ≡ b → v.value ≡ t) × (t ≡ b → v.value ≡ s) × (s ≡ t → v.value ≡ s)
  unfolding merge_value
  merge_value_ok b s t v h = (
    λ p. ground (arith, ≡→== s b p, ==→≡ t b, ==→≡ s b),
    λ p. ground (arith, ≡→== t b p, ==→≡ t b, ==→≡ s b),
    λ p. ground (arith, ≡→== s t p, ==→≡ t b, ==→≡ s b),
  )
