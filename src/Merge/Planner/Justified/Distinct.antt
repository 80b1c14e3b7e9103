-- ===== src/Merge/Planner/Justified/Distinct.antt =====
-- No two source entities coalesce with the same target entity.
use openmemory.Prelude.{
  ◌≡◌, refl, ap, sym, ◌∙◌, subst, Option, true, false, not, ◌||◌, none, some, List, [], ◌∷◌, ◌++◌,
  concat_map, ok, Bool-cases, Option-cases, inl, inr, All, arith, append-nil, append_assoc, length,
  ◌+◌,
}
use openmemory.Prelude.Results.{>>=-ok, fail_if-ok}
use openmemory.Prelude.Order.{==_sym}
use openmemory.Prelude.Maps.{
  BTreeMap, contains, contains_key, get, insert, contains-insert, contains-append,
}
use openmemory.Text.{is_empty}
use openmemory.Merge.Model.{EntityAddress, address_ord}
use openmemory.Merge.Discovery.{DiscoveryReceipt}
use openmemory.Merge.Receipt.{IdentityResolutionReceipt, KeepDistinctReceipt, matches_discovery}
use openmemory.Merge.Planner.{
  MergePolicy, PlanningReceipts, MergeAccounting, no_candidate, reviewed_different, keep_distinct,
}
use openmemory.Merge.Planner.Dispositions.{
  PlannedDisposition, coalesce, add, PlannedEntity, PairKey, planned_entity, index_discoveries,
  index_resolutions, index_keep_distinct, Progress, no_progress, review_candidates, conclude_review,
  dispose_reviewed, dispose_kept, check_unresolved, dispose, dispose_all, prepare_dispositions,
}

abbrev target_of : PlannedDisposition → List EntityAddress
target_of (coalesce onto receipt) = onto.address ∷ []
target_of (add reason receipt) = []

-- The target entities that the planned entities coalesce with.
abbrev pub targets_of : List PlannedEntity → List EntityAddress
targets_of planned = concat_map (λ e. target_of e.disposition) planned

abbrev pub IsDistinct : List EntityAddress → Type 0
IsDistinct [] = Unit
IsDistinct (a ∷ rest) = (contains a rest ≡ false) × IsDistinct rest

IsDistinct-append :
    (xs : List EntityAddress) (a : EntityAddress)
    → IsDistinct xs
    → contains a xs ≡ false
    → IsDistinct (xs ++ a ∷ [])
IsDistinct-append [] a d h = (refl, tt)
IsDistinct-append (x ∷ xs) a d h = (
  ground (arith, contains-append x xs (a ∷ []), ==_sym x a),
  IsDistinct-append xs a d.1 (ground arith),
)

-- What a disposition does to the set of the targets that are taken.
record Takes (d : PlannedDisposition) (p q : Progress) : Type 0 where
  free : All (λ a. contains a p.coalescence_targets ≡ false) (target_of d)
  taken :
      (a : EntityAddress)
      → contains a q.coalescence_targets
        ≡ (contains a (target_of d) || contains a p.coalescence_targets)
  planned : q.planned ≡ p.planned

module _ (resolutions : BTreeMap PairKey IdentityResolutionReceipt)
    (keeps : BTreeMap EntityAddress KeepDistinctReceipt) where
  conclude_review-Takes :
      (o : Option IdentityResolutionReceipt) (p : Progress) (x : PlannedDisposition × Progress)
      → conclude_review o p ≡ ok x
      → Takes x.0 p x.1
  unfolding conclude_review
  conclude_review-Takes none p x e =
      let q : (add reviewed_different none, p) ≡ x = ground arith in
      subst (λ y. Takes y.0 p y.1) q (record { free = tt; taken = λ a. refl; planned = refl })
  conclude_review-Takes (some r) p x e =
      elim (Bool-cases (contains r.target.address p.coalescence_targets)) [
        | inl is_taken ↦ absurd (ground arith)
        | inr is_free ↦
            let q : (
              coalesce r.target r.hash,
              record p { coalescence_targets = insert r.target.address p.coalescence_targets },
            )
                ≡ x =
              ground arith in
            subst (λ y. Takes y.0 p y.1) q
              (record {
                free = (is_free, tt);
                taken =
                    λ a. ground (arith, contains-insert r.target.address a p.coalescence_targets);
                planned = refl;
              })
      ]

  dispose-Takes :
      (a : EntityAddress) (d : DiscoveryReceipt) (p : Progress) (x : PlannedDisposition × Progress)
      → dispose resolutions keeps a d p ≡ ok x
      → Takes x.0 p x.1
  unfolding dispose dispose_kept dispose_reviewed
  dispose-Takes a d p x e = elim (Bool-cases (is_empty d.candidates)) [
    | inl nobody ↦ elim (Bool-cases (contains_key a keeps)) [
      | inl present ↦ absurd (ground arith)
      | inr absent ↦
          let q : (add no_candidate none, p) ≡ x = ground arith in
          subst (λ y. Takes y.0 p y.1) q (record { free = tt; taken = λ b. refl; planned = refl })
    ]
    | inr somebody ↦ elim (Option-cases (get a keeps)) [
      | inl absent ↦
          let (_, e1) = fail_if-ok d.truncated _ _ (rw (somebody, absent) at e) in
          let (v, _, e2) = >>=-ok (review_candidates resolutions d.candidates _) _ e1 in
          let t = conclude_review-Takes v.same _ x e2 in
          record { free = t.free; taken = t.taken; planned = t.planned }
      | inr (k, found) ↦
          let (_, e1) = fail_if-ok (not (matches_discovery k d)) _ _ (rw (somebody, found) at e) in
          let (_, _, e2) = >>=-ok (check_unresolved resolutions d.candidates) _ e1 in
          let q : (
            add keep_distinct (some k.hash),
            record p {
              used_keep = insert a p.used_keep;
              consumed_candidates = p.consumed_candidates + length d.candidates;
            },
          )
              ≡ x =
            ground arith in
          subst (λ y. Takes y.0 p y.1) q (record { free = tt; taken = λ b. refl; planned = refl })
    ]
  ]

-- The planned targets are distinct, and all of them are taken.
record Separate (p : Progress) : Type 0 where
  covered :
      (a : EntityAddress)
      → contains a (targets_of p.planned) ≡ true
      → contains a p.coalescence_targets ≡ true
  distinct : IsDistinct (targets_of p.planned)

targets_of-append :
    (xs : List PlannedEntity) (e : PlannedEntity)
    → targets_of (xs ++ e ∷ []) ≡ targets_of xs ++ target_of e.disposition
targets_of-append [] e = append-nil _
targets_of-append (x ∷ xs) e = simp (targets_of-append xs e, append_assoc)

module _ (p q : Progress) (apart : Separate p) where
  extend-Separate :
      (d : PlannedDisposition) (targets : List EntityAddress)
      → Takes d p q
      → targets ≡ targets_of p.planned ++ target_of d
      → ((a : EntityAddress) → contains a targets ≡ true → contains a q.coalescence_targets ≡ true)
        × IsDistinct targets
  extend-Separate (add reason receipt) targets t e =
      let same : targets_of p.planned ≡ targets = sym (e ∙ append-nil _) in
      (λ a h. t.taken a ∙ apart.covered a (rw (← same) at h), subst IsDistinct same apart.distinct)
  extend-Separate (coalesce onto receipt) targets t e =
      let new_one : contains onto.address (targets_of p.planned) ≡ false =
        ground (arith, apart.covered onto.address, t.free.0) in
      (
        λ a h.
            let split = contains-append a (targets_of p.planned) (onto.address ∷ []) in
            ground (arith, rw e at h, split, t.taken a, apart.covered a),
        rw e (IsDistinct-append (targets_of p.planned) onto.address apart.distinct new_one),
      )

module _ (resolutions : BTreeMap PairKey IdentityResolutionReceipt)
    (keeps : BTreeMap EntityAddress KeepDistinctReceipt) where
  dispose_all-Separate :
      (ds : BTreeMap EntityAddress DiscoveryReceipt) (p p' : Progress)
      → Separate p
      → dispose_all resolutions keeps ds p ≡ ok p'
      → Separate p'
  unfolding dispose_all
  dispose_all-Separate [] p p' s e = let q : p ≡ p' = ground arith in subst Separate q s
  dispose_all-Separate ((a, d) ∷ ds) p p' s e =
      let (x, e1, e2) = >>=-ok (dispose resolutions keeps a d p) _ e in
      let t = dispose-Takes resolutions keeps a d p x e1 in
      let one = planned_entity resolutions keeps a d x.0 in
      let row : targets_of (x.1.planned ++ one ∷ []) ≡ targets_of p.planned ++ target_of x.0 =
        targets_of-append x.1.planned one ∙ ap (λ xs. targets_of xs ++ target_of x.0) t.planned in
      let (covered, distinct) = extend-Separate p x.1 s x.0 _ t row in
      dispose_all-Separate ds _ p' (record { covered = covered; distinct = distinct }) e2

-- Where the receipts prepare a run, the targets of the planned coalescences are distinct: no two
-- source entities coalesce with the same target entity.
pub prepare_dispositions-IsDistinct :
    (receipts : PlanningReceipts) (policy : MergePolicy) (planned : List PlannedEntity)
    (accounting : MergeAccounting)
    → prepare_dispositions receipts policy ≡ ok (planned, accounting)
    → IsDistinct (targets_of planned)
unfolding prepare_dispositions
prepare_dispositions-IsDistinct receipts policy planned accounting e =
    let (ds, _, e1) = >>=-ok (index_discoveries policy receipts.discoveries []) _ e in
    let (rs, _, e2) = >>=-ok (index_resolutions policy receipts.resolutions []) _ e1 in
    let (ks, _, e3) = >>=-ok (index_keep_distinct policy receipts.keep_distinct []) _ e2 in
    let (p, p_eq, e4) = >>=-ok (dispose_all rs ks ds no_progress) _ e3 in
    let done =
      dispose_all-Separate rs ks ds no_progress p (record { covered = λ a h. h; distinct = tt })
        p_eq in
    let q : p.planned ≡ planned = ground arith in
    subst (λ xs. IsDistinct (targets_of xs)) q done.distinct
