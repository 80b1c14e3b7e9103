-- ===== src/Merge/Examples/Fields.antt =====
-- The theorems on the three-way merge, at small maps.
use openmemory.Prelude.{ℕ, ◌≡◌, ◌≢◌, refl, [], ◌∷◌, Option, ok, err, MergeErrorCode}
use openmemory.Prelude.Order.{list_ord, nat_ord}
use openmemory.Prelude.Maps.{BTreeMap, get, insert_value, insert}
use openmemory.Text.{Text, literal}
use openmemory.Merge.ThreeWay.{
  ThreeWayValue, source, target, FieldMerge, merge_value, merge_field, merge_fields, merge_keys,
  add_field, swap_sides, merge_value-swap, merge_value_conflict, merge_value_ok,
}
use openmemory.Merge.ThreeWay.Fields.{get-merge_fields, merge_fields_conflict}

abbrev one : ℕ
one = 1

abbrev two : ℕ
two = 2

abbrev three : ℕ
three = 3

abbrev base_map : BTreeMap Text Text
base_map = (literal "city", literal "Rome") ∷ (literal "name", literal "Ann") ∷ []

abbrev source_map : BTreeMap Text Text
source_map = (literal "city", literal "Oslo") ∷ (literal "name", literal "Ann") ∷ []

abbrev target_map : BTreeMap Text Text
target_map = (literal "city", literal "Rome") ∷ (literal "name", literal "Anna") ∷ []

abbrev other_map : BTreeMap Text Text
other_map = (literal "city", literal "Bern") ∷ []

abbrev merged : FieldMerge
merged = record {
  values = (literal "city", literal "Oslo") ∷ (literal "name", literal "Anna") ∷ [];
  sources = (literal "city", source) ∷ (literal "name", target) ∷ [];
}

computed :
    (merge_fields base_map source_map target_map ≡ ok merged)
    × (merge_fields base_map source_map other_map ≡ err MergeErrorCode.three_way_conflict)
    × (merge_value one two three ≡ err MergeErrorCode.three_way_conflict)
    × (merge_value one two one ≡ ok (record { value = two; source = source }))
unfolding merge_fields merge_keys merge_field merge_value add_field insert_value insert
computed = (refl, refl, refl, refl)

get-merge_fields_example :
    (v : ThreeWayValue (Option Text)) × (merge_field base_map source_map target_map (literal "name")
      ≡ ok v)
    × (get (literal "name") merged.values ≡ v.value)
get-merge_fields_example =
    get-merge_fields base_map source_map target_map merged (literal "name") computed.0

merge_fields_conflict_example :
    (k : Text) × (MergeErrorCode.three_way_conflict ≡ MergeErrorCode.three_way_conflict)
    × (get k source_map ≢ get k base_map)
    × (get k other_map ≢ get k base_map)
    × (get k source_map ≢ get k other_map)
merge_fields_conflict_example =
    merge_fields_conflict base_map source_map other_map MergeErrorCode.three_way_conflict computed.1

merge_value-swap_example : merge_value one three two ≡ swap_sides (merge_value one two three)
merge_value-swap_example = merge_value-swap one two three

merge_value_conflict_example :
    (MergeErrorCode.three_way_conflict ≡ MergeErrorCode.three_way_conflict)
    × (two ≢ one)
    × (three ≢ one)
    × (two ≢ three)
merge_value_conflict_example =
    merge_value_conflict one two three MergeErrorCode.three_way_conflict computed.2

merge_value_ok_example : (two ≡ one → two ≡ one) × (one ≡ one → two ≡ two) × (two ≡ one → two ≡ two)
merge_value_ok_example =
    merge_value_ok one two one (record { value = two; source = source }) computed.3
