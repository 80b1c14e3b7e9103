-- ===== src/Merge/ThreeWay/Fields.antt =====
-- What `merge_fields` returns, key by key, and where it fails.
use mathlib.Core.Bool.{false≢true}
use openmemory.Prelude.{
  ◌≢◌, ap, ◌∙◌, ◌≡◌, refl, Bool, true, false, ◌||◌, Bool-cases, Option, none, some, List, [], ◌∷◌,
  inl, inr, Result, ok, err, MergeErrorCode, if◌then◌else◌, arith,
}
use openmemory.Prelude.Results.{>>=-ok}
use openmemory.Prelude.Order.{◌==◌, ==→≡, list_ord, nat_ord, option_ord}
use openmemory.Prelude.Maps.{
  BTreeMap, get, insert_value, contains, contains-to_set, contains-append, keys, get_absent,
  get-insert_value,
}
use openmemory.Text.{Text}
use openmemory.Merge.ThreeWay.{
  base, merge_value_conflict, ThreeWayValue, FieldMerge, add_field, merge_value, merge_field,
  merge_keys, merge_fields, all_keys,
}

-- The first value, and the second where there is none.
abbrev or_else : Option Text → Option Text → Option Text
or_else none y = y
or_else (some x) y = some x

get-write :
    (key k : Text) (o : Option Text) (values : BTreeMap Text Text)
    → get k (elim o [ none ↦ values | some value ↦ insert_value key value values ])
      ≡ (if k == key then or_else o (get k values) else get k values)
get-write key k none values = ground arith
get-write key k (some value) values = get-insert_value key k value values

get-add_field :
    (key k : Text) (v : ThreeWayValue (Option Text)) (m : FieldMerge)
    → get k (add_field key v m).values
      ≡ (if k == key then or_else v.value (get k m.values) else get k m.values)
unfolding add_field
get-add_field key k v m = get-write key k v.value m.values

or_else_twice : (x y : Option Text) → or_else x (or_else x y) ≡ or_else x y
or_else_twice none y = refl
or_else_twice (some x) y = refl

-- The value of a field that has merged, `none` where it has not.
abbrev value_of : Result (ThreeWayValue (Option Text)) → Option Text
value_of (ok v) = v.value
value_of (err e) = none

module _ (b s t : BTreeMap Text Text) where
  get-merge_keys :
      (ks : List Text) (m m' : FieldMerge) (k : Text)
      → merge_keys b s t ks m ≡ ok m'
      → get k m'.values ≡ (
          if contains k ks
          then or_else (value_of (merge_field b s t k)) (get k m.values)
          else get k m.values)
  unfolding merge_keys
  get-merge_keys [] m m' k h = ground arith
  get-merge_keys (key ∷ ks) m m' k h =
      let (v, e, rest) = >>=-ok (merge_field b s t key) _ h in
      let ih = get-merge_keys ks (add_field key v m) m' k rest in
      elim (Bool-cases (k == key)) [
        | inl same ↦
            let p : merge_field b s t k ≡ ok v = ap (merge_field b s t) (==→≡ k key same) ∙ e in
            rw (same, p)
              (rw (get-add_field key k v m, same, p) at ih
                ∙ absorb (contains k ks) v.value (get k m.values))
        | inr other ↦ rw other (rw (get-add_field key k v m, other) at ih)
      ]
    where
      absorb :
          (c : Bool) (x y : Option Text)
          → (if c then or_else x (or_else x y) else or_else x y) ≡ or_else x y
      absorb true x y = or_else_twice x y
      absorb false x y = refl

  merge_keys_each :
      (ks : List Text) (m m' : FieldMerge) (k : Text)
      → merge_keys b s t ks m ≡ ok m'
      → contains k ks ≡ true
      → (v : ThreeWayValue (Option Text)) × (merge_field b s t k ≡ ok v)
  unfolding merge_keys
  merge_keys_each [] m m' k h c = absurd (false≢true c)
  merge_keys_each (key ∷ ks) m m' k h c =
      let (v, e, rest) = >>=-ok (merge_field b s t key) _ h in
      elim (Bool-cases (k == key)) [
        | inl same ↦ (v, ap (merge_field b s t) (==→≡ k key same) ∙ e)
        | inr other ↦ merge_keys_each ks (add_field key v m) m' k rest (rw other at c)
      ]

  merge_field_absent :
      (k : Text)
      → contains k (all_keys b s t) ≡ false
      → merge_field b s t k ≡ ok (record { value = none; source = base })
  unfolding merge_field merge_value
  merge_field_absent k h =
      let all : contains k (keys b) || (contains k (keys s) || contains k (keys t)) ≡ false =
        rw (contains-to_set, contains-append, contains-append) at h in
      let hb : contains k (keys b) ≡ false = ground arith in
      let hs : contains k (keys s) ≡ false = ground arith in
      let ht : contains k (keys t) ≡ false = ground arith in
      rw (get_absent k b hb, get_absent k s hs, get_absent k t ht)

  -- Each field of a successful merge is the three-way merge of that field in the three maps, also
  -- where a map lacks it.
  pub get-merge_fields :
      (m : FieldMerge) (k : Text)
      → merge_fields b s t ≡ ok m
      → (v : ThreeWayValue (Option Text)) × (merge_field b s t k ≡ ok v)
        × (get k m.values ≡ v.value)
  unfolding merge_fields
  get-merge_fields m k h =
      let value = get-merge_keys (all_keys b s t) _ m k h in
      elim (Bool-cases (contains k (all_keys b s t))) [
        | inl in_some ↦
            let (v, e) = merge_keys_each (all_keys b s t) _ m k h in_some in
            (v, e, rw (in_some, e) at value ∙ or_else_none v.value)
        | inr in_none ↦ (_, merge_field_absent k in_none, rw in_none at value)
      ]
    where
      or_else_none : (x : Option Text) → or_else x none ≡ x
      or_else_none none = refl
      or_else_none (some x) = refl

  find_conflict :
      (ks : List Text) (m : FieldMerge) (e : MergeErrorCode)
      → merge_keys b s t ks m ≡ err e
      → (k : Text) × (merge_field b s t k ≡ err e)
  unfolding merge_keys
  find_conflict [] m e h = absurd (ok-ne-err m e h)
    where
      ok-ne-err : (m : FieldMerge) (e : MergeErrorCode) → ok m ≡ err e → ⊥
      ok-ne-err m e p = cc
  find_conflict (key ∷ ks) m e h =
      split (λ v. find_conflict ks (add_field key v m) e) (merge_field b s t key) refl
    where
      split :
          ((v : ThreeWayValue (Option Text))
            → merge_keys b s t ks (add_field key v m) ≡ err e
            → (k : Text) × (merge_field b s t k ≡ err e))
          → (r : Result (ThreeWayValue (Option Text))) → merge_field b s t key ≡ r
          → (k : Text) × (merge_field b s t k ≡ err e)
      split later (ok v) p = later v (rw p at h)
      split later (err e') p =
          let failed = rw p at h in let same : e' ≡ e = cc in (key, p ∙ ap err same)

  -- A merge of fields fails only with a conflict, at a field that both sides changed differently.
  pub merge_fields_conflict :
      (e : MergeErrorCode)
      → merge_fields b s t ≡ err e
      → (k : Text) × (e ≡ MergeErrorCode.three_way_conflict)
        × (get k s ≢ get k b)
        × (get k t ≢ get k b)
        × (get k s ≢ get k t)
  unfolding merge_fields merge_field
  merge_fields_conflict e h =
      let (k, p) = find_conflict (all_keys b s t) _ e h in
      let (code, moved_s, moved_t, apart) =
        merge_value_conflict (get k b) (get k s) (get k t) e p in
      (k, code, moved_s, moved_t, apart)
