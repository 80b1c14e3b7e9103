-- ===== src/Merge/Planner/Justified.antt =====
-- Every disposition that `prepare_dispositions` plans rests on the receipts of the run.
pub mod Indexed
pub mod Distinct
use openmemory.Prelude.{
  ◌⊎◌, ◌≡◌, refl, sym, ap, ◌∙◌, subst, Bool, true, false, not, ◌||◌, ◌&&◌, Option, none, some, List,
  [], ◌∷◌, ◌++◌, length, eqb, Result, ok, err, fail_if, MergeErrorCode, is_some, Bool-cases,
  Option-cases, inl, inr, All, All-append, All-imp, arith, if◌then◌else◌,
}
use mathlib.Core.List.{Mem, mem-cons_self, mem-cons_of_mem}
use openmemory.Prelude.Results.{◌>>=◌, ◌>>◌, >>=-ok, fail_if-ok, require-ok}
use openmemory.Prelude.Order.{pair_ord, ◌==◌, ==→≡}
use openmemory.Prelude.Maps.{
  BTreeMap, insert, insert_value, contains, contains_key, get, All-get, All-insert_value,
}
use openmemory.Text.{is_empty}
use openmemory.Merge.Model.{EntityAddress, address_ord}
use openmemory.Merge.Evidence.{EntityRevisionRef, revision_ref_ord}
use openmemory.Merge.Discovery.{IdentityCandidate, DiscoveryReceipt}
use openmemory.Merge.Receipt.{
  IdentityResolutionReceipt, KeepDistinctReceipt, is_same, matches_candidate, matches_discovery,
}
use openmemory.Merge.Planner.{
  MergePolicy, PlanningReceipts, MergeAccounting, no_candidate, reviewed_different, keep_distinct,
}
use openmemory.Merge.Planner.Dispositions.{
  PlannedDisposition, coalesce, add, PlannedEntity, PairKey, resolution_pair, candidate_pair,
  index_discoveries, index_resolutions, index_keep_distinct, Progress, no_progress, Review,
  review_candidate, review_candidates, conclude_review, dispose_reviewed, dispose_kept,
  check_unresolved, dispose, dispose_all, planned_entity, prepare_dispositions,
}
use openmemory.Merge.Planner.Justified.Indexed.{
  index_resolutions-All, index_keep_distinct-All, index_discoveries-All,
}

module _ (receipts : PlanningReceipts) (policy : MergePolicy) where
  -- A resolution of the run, under the policy's generation, for the candidate `c`.
  abbrev pub Resolves : IdentityResolutionReceipt → IdentityCandidate → Type 0
  Resolves r c =
      Mem r receipts.resolutions
      × (r.policy_generation ≡ policy.identity_policy_generation)
      × (matches_candidate r c ≡ true)

  -- What a disposition needs, for a source with the discovery `d`.
  abbrev pub Allows : DiscoveryReceipt → PlannedDisposition → Type 0
  Allows d (coalesce onto receipt) =
      (d.truncated ≡ false)
      × (r : IdentityResolutionReceipt) × (c : IdentityCandidate) × Mem c d.candidates
      × Resolves r c
      × (is_same r.decision ≡ true)
      × (onto ≡ r.target)
      × (receipt ≡ r.hash)
  Allows d (add no_candidate receipt) = (is_empty d.candidates ≡ true) × (receipt ≡ none)
  Allows d (add reviewed_different receipt) =
      (d.truncated ≡ false)
      × All (λ c. (r : IdentityResolutionReceipt) × Resolves r c × (is_same r.decision ≡ false))
          d.candidates
      × (receipt ≡ none)
  Allows d (add keep_distinct receipt) =
      (k : KeepDistinctReceipt) × Mem k receipts.keep_distinct
      × (k.policy_generation ≡ policy.identity_policy_generation)
      × (matches_discovery k d ≡ true)
      × (receipt ≡ some k.hash)

  -- A planned entity is the source of a discovery of the run, under the policy's generation, and
  -- its disposition is one that the receipts allow.
  abbrev pub Justified : PlannedEntity → Type 0
  Justified e =
      (d : DiscoveryReceipt) × Mem d receipts.discoveries
      × (d.policy_generation ≡ policy.identity_policy_generation)
      × (e.logical_id ≡ d.source.address.logical_id)
      × (e.revision ≡ d.source.revision)
      × (e.snapshot ≡ d.source.snapshot)
      × Allows d e.disposition

  module _ (resolutions : BTreeMap PairKey IdentityResolutionReceipt)
      (backed : All
        (λ (e : PairKey × IdentityResolutionReceipt).
          Mem e.1 receipts.resolutions
          × (e.1.policy_generation ≡ policy.identity_policy_generation))
        resolutions) where
    review_candidate-ok :
        (c : IdentityCandidate) (v v' : Review)
        → review_candidate resolutions c v ≡ ok v'
        → (r : IdentityResolutionReceipt) × Resolves r c
          × (v'.same ≡ (if is_same r.decision then some r else v.same))
    unfolding review_candidate
    review_candidate-ok c v v' e =
        let (r, found, e1) = require-ok (get (candidate_pair c) resolutions) _ _ e in
        let (matching, e2) = fail_if-ok (not (matches_candidate r c)) _ _ e1 in
        let (_, e3) = fail_if-ok (is_same r.decision && is_some v.same) _ _ e2 in
        let b = All-get _ resolutions (candidate_pair c) r backed found in
        (r, (b.0, b.1, ground arith), ground arith)

    -- Where no resolution said `same`, every candidate has one that says `different`.
    review_candidates-none :
        (cs : List IdentityCandidate) (v v' : Review)
        → review_candidates resolutions cs v ≡ ok v'
        → v'.same ≡ none
        → (v.same ≡ none)
          × All
              (λ c. (r : IdentityResolutionReceipt) × Resolves r c × (is_same r.decision ≡ false))
              cs
    unfolding review_candidates
    review_candidates-none [] v v' e h = (ground arith, tt)
    review_candidates-none (c ∷ cs) v v' e h =
        let (w, e1, e2) =
          >>=-ok (review_candidate resolutions c v) (λ x. review_candidates resolutions cs x) e in
        let (r, resolves, same_eq) = review_candidate-ok c v w e1 in
        let (none_w, others) = review_candidates-none cs w v' e2 h in
        let different : is_same r.decision ≡ false = ground arith in
        (ground arith, ((r, resolves, different), others))

    -- A resolution that said `same` is that of a candidate.
    review_candidates-some :
        (cs : List IdentityCandidate) (v v' : Review) (r : IdentityResolutionReceipt)
        → review_candidates resolutions cs v ≡ ok v'
        → v'.same ≡ some r
        → (v.same ≡ some r)
          ⊎ (c : IdentityCandidate) × Mem c cs × Resolves r c × (is_same r.decision ≡ true)
    unfolding review_candidates
    review_candidates-some [] v v' r e h = inl (ground arith)
    review_candidates-some (c ∷ cs) v v' r e h =
        let (w, e1, e2) =
          >>=-ok (review_candidate resolutions c v) (λ x. review_candidates resolutions cs x) e in
        let (q, resolves, same_eq) = review_candidate-ok c v w e1 in
        elim (review_candidates-some cs w v' r e2 h) [
          | inr (d, m, res, says) ↦ inr (d, mem-cons_of_mem c m, res, says)
          | inl from_w ↦ elim (Bool-cases (is_same q.decision)) [
            | inl says_same ↦
                let p : q ≡ r = ground arith in
                inr (
                  subst
                    (λ x.
                      (c' : IdentityCandidate) × Mem c' (c ∷ cs)
                      × Resolves x c'
                      × (is_same x.decision ≡ true))
                    p (c, mem-cons_self, resolves, says_same))
            | inr says_different ↦ inl (ground arith)
          ]
        ]

    dispose_reviewed-Allows :
        (d : DiscoveryReceipt) (p : Progress) (x : PlannedDisposition × Progress)
        → dispose_reviewed resolutions d p ≡ ok x
        → Allows d x.0
    unfolding dispose_reviewed conclude_review
    dispose_reviewed-Allows d p x e =
        let start : Review = record {
          used = p.used_resolutions;
          consumed = p.consumed_candidates;
          same = none;
        } in
        let (whole, e1) = fail_if-ok d.truncated _ _ e in
        let (v, e2, e3) =
          >>=-ok (review_candidates resolutions d.candidates start)
            (λ v.
              conclude_review v.same
                (record p { used_resolutions = v.used; consumed_candidates = v.consumed }))
            e1 in
        elim (Option-cases v.same) [
          | inl nothing ↦
              let (_, all) = review_candidates-none d.candidates start v e2 nothing in
              let q : (
                add reviewed_different none,
                record p { used_resolutions = v.used; consumed_candidates = v.consumed },
              )
                  ≡ x =
                ground arith in
              subst (λ y. Allows d y.0) q (whole, all, refl)
          | inr (r, found) ↦ elim (review_candidates-some d.candidates start v r e2 found) [
            | inl impossible ↦ absurd (ground arith)
            | inr (c, m, resolves, says_same) ↦
                let q : coalesce r.target r.hash ≡ x.0 = ground arith in
                subst (Allows d) q (whole, r, c, m, resolves, says_same, refl, refl)
          ]
        ]

    module _ (keeps : BTreeMap EntityAddress KeepDistinctReceipt)
        (kept : All
          (λ (e : EntityAddress × KeepDistinctReceipt).
            Mem e.1 receipts.keep_distinct
            × (e.1.policy_generation ≡ policy.identity_policy_generation))
          keeps) where
      dispose-Allows :
          (a : EntityAddress) (d : DiscoveryReceipt) (p : Progress)
          (x : PlannedDisposition × Progress)
          → dispose resolutions keeps a d p ≡ ok x
          → Allows d x.0
      unfolding dispose dispose_kept
      dispose-Allows a d p x e = elim (Bool-cases (is_empty d.candidates)) [
        | inl nobody ↦ elim (Bool-cases (contains_key a keeps)) [
          | inl present ↦ absurd (ground arith)
          | inr absent ↦
              let q : add no_candidate none ≡ x.0 = ground arith in
              subst (Allows d) q (nobody, refl)
        ]
        | inr somebody ↦ elim (Option-cases (get a keeps)) [
          | inl absent ↦ dispose_reviewed-Allows d p x (rw (somebody, absent) at e)
          | inr (k, found) ↦
              let (matching, e1) =
                fail_if-ok (not (matches_discovery k d)) _ _ (rw (somebody, found) at e) in
              let (_, _, e2) = >>=-ok (check_unresolved resolutions d.candidates) _ e1 in
              let q : add keep_distinct (some k.hash) ≡ x.0 = ground arith in
              let matched : matches_discovery k d ≡ true = ground arith in
              let b = All-get _ keeps a k kept found in
              subst (Allows d) q (k, b.0, b.1, matched, refl)
        ]
      ]

      -- A disposition adds nothing to what is planned; the loop over the sources does.
      dispose-planned :
          (a : EntityAddress) (d : DiscoveryReceipt) (p : Progress)
          (x : PlannedDisposition × Progress)
          → dispose resolutions keeps a d p ≡ ok x
          → x.1.planned ≡ p.planned
      unfolding dispose dispose_kept dispose_reviewed conclude_review
      dispose-planned a d p x e = elim (Bool-cases (is_empty d.candidates)) [
        | inl nobody ↦ ground arith
        | inr somebody ↦ elim (Option-cases (get a keeps)) [
          | inl absent ↦
              let (_, e1) = fail_if-ok d.truncated _ _ (rw (somebody, absent) at e) in
              let (v, _, e2) = >>=-ok (review_candidates resolutions d.candidates _) _ e1 in
              ground arith
          | inr (k, found) ↦
              let (_, e1) =
                fail_if-ok (not (matches_discovery k d)) _ _ (rw (somebody, found) at e) in
              let (_, _, e2) = >>=-ok (check_unresolved resolutions d.candidates) _ e1 in
              ground arith
        ]
      ]

      dispose_all-Justified :
          (ds : BTreeMap EntityAddress DiscoveryReceipt) (p p' : Progress)
          → All
              (λ (e : EntityAddress × DiscoveryReceipt).
                Mem e.1 receipts.discoveries
                × (e.1.policy_generation ≡ policy.identity_policy_generation)
                × (e.0 ≡ e.1.source.address))
              ds
          → All Justified p.planned
          → dispose_all resolutions keeps ds p ≡ ok p'
          → All Justified p'.planned
      unfolding dispose_all
      dispose_all-Justified [] p p' h done e =
          let q : p ≡ p' = ground arith in subst (λ (x : Progress). All Justified x.planned) q done
      dispose_all-Justified ((a, d) ∷ ds) p p' h done e =
          let (x, e1, e2) = >>=-ok (dispose resolutions keeps a d p) _ e in
          let kept_planned = dispose-planned a d p x e1 in
          let new_one : Justified (planned_entity resolutions keeps a d x.0) = (
            d,
            h.0.0,
            h.0.1,
            ap (λ b. b.logical_id) h.0.2,
            refl,
            refl,
            dispose-Allows a d p x e1,
          ) in
          dispose_all-Justified ds _ p' h.1
            (rw kept_planned (All-append Justified p.planned _ done (new_one, tt))) e2

  -- Where the receipts prepare a run, every planned entity is the source of a discovery among
  -- them, under the policy's generation, and its disposition rests on them: a coalescence on a
  -- resolution `same` for a candidate of that discovery, whose page is whole; an addition on a
  -- page without candidates, on a whole page on which every candidate is resolved `different`, or
  -- on a keep-distinct receipt that matches the discovery.
  pub prepare_dispositions-Justified :
      (planned : List PlannedEntity) (accounting : MergeAccounting)
      → prepare_dispositions receipts policy ≡ ok (planned, accounting)
      → All Justified planned
  unfolding prepare_dispositions
  prepare_dispositions-Justified planned accounting e =
      let (ds, d_eq, e1) = >>=-ok (index_discoveries policy receipts.discoveries []) _ e in
      let (rs, r_eq, e2) = >>=-ok (index_resolutions policy receipts.resolutions []) _ e1 in
      let (ks, k_eq, e3) = >>=-ok (index_keep_distinct policy receipts.keep_distinct []) _ e2 in
      let (p, p_eq, e4) = >>=-ok (dispose_all rs ks ds no_progress) _ e3 in
      let d_all =
        index_discoveries-All policy _ receipts.discoveries [] ds (λ d m g. (m, g, refl)) tt d_eq in
      let r_all =
        index_resolutions-All policy _ receipts.resolutions [] rs (λ r m g. (m, g)) tt r_eq in
      let k_all =
        index_keep_distinct-All policy _ receipts.keep_distinct [] ks (λ k m g. (m, g)) tt k_eq in
      let done = dispose_all-Justified rs r_all ks k_all ds no_progress p d_all tt p_eq in
      let q : p.planned ≡ planned = ground arith in subst (All Justified) q done
