-- ===== src/Merge/Planner/Dispositions.antt =====
-- `prepare_dispositions`: the receipts decide what becomes of every source entity.
use openmemory.Prelude.{
  ℕ, ◌+◌, not, ◌&&◌, ◌||◌, Option, none, some, List, [], ◌∷◌, ◌++◌, length, Result, ok, err,
  MergeErrorCode, fail_if, require, eqb, if◌then◌else◌, is_some,
}
use openmemory.Prelude.Results.{◌>>=◌, ◌>>◌}
use openmemory.Prelude.Order.{pair_ord}
use openmemory.Prelude.Maps.{BTreeMap, BTreeSet, insert, insert_value, contains, contains_key, get}
use openmemory.Text.{is_empty}
use openmemory.Merge.Canonical.{Hash, u64_of_usize}
use openmemory.Merge.Model.{EntityAddress, address_ord, LogicalId, RevisionId, SnapshotId}
use openmemory.Merge.Evidence.{EntityRevisionRef}
use openmemory.Merge.Discovery.{IdentityCandidate, DiscoveryReceipt}
use openmemory.Merge.Receipt.{
  IdentityResolutionReceipt, KeepDistinctReceipt, is_same, matches_candidate, matches_discovery,
}
use openmemory.Merge.Planner.{
  MergePolicy, PlanningReceipts, DistinctReason, no_candidate, reviewed_different, keep_distinct,
  MergeAccounting,
}

pub data PlannedDisposition : Type 0 where
  -- target, receipt
  coalesce : EntityRevisionRef → Hash → PlannedDisposition
  add : DistinctReason → Option Hash → PlannedDisposition

pub record PlannedEntity : Type 0 where
  pub logical_id : LogicalId
  pub revision : RevisionId
  pub snapshot : SnapshotId
  pub disposition : PlannedDisposition

-- A target and a source.
abbrev pub PairKey : Type 0
PairKey = EntityAddress × EntityAddress

abbrev pub resolution_pair : IdentityResolutionReceipt → PairKey
resolution_pair r = (r.target.address, r.source.address)

abbrev pub candidate_pair : IdentityCandidate → PairKey
candidate_pair c = (c.target.address, c.source.address)

-- The loops that index the receipts of the run, each under the policy's generation.
module _ (policy : MergePolicy) where
  unfoldable pub index_discoveries :
      List DiscoveryReceipt
      → BTreeMap EntityAddress DiscoveryReceipt
      → Result (BTreeMap EntityAddress DiscoveryReceipt)
  index_discoveries [] m = ok m
  index_discoveries (d ∷ rest) m = do
    fail_if (not (eqb d.policy_generation policy.identity_policy_generation))
        MergeErrorCode.stale_receipt
    fail_if (contains_key d.source.address m) MergeErrorCode.duplicate_input
    index_discoveries rest (insert_value d.source.address d m)

  unfoldable pub index_resolutions :
      List IdentityResolutionReceipt
      → BTreeMap PairKey IdentityResolutionReceipt
      → Result (BTreeMap PairKey IdentityResolutionReceipt)
  index_resolutions [] m = ok m
  index_resolutions (r ∷ rest) m = do
    fail_if
        (not (eqb r.policy_generation policy.identity_policy_generation)
          || contains_key (resolution_pair r) m)
        MergeErrorCode.stale_receipt
    index_resolutions rest (insert_value (resolution_pair r) r m)

  unfoldable pub index_keep_distinct :
      List KeepDistinctReceipt
      → BTreeMap EntityAddress KeepDistinctReceipt
      → Result (BTreeMap EntityAddress KeepDistinctReceipt)
  index_keep_distinct [] m = ok m
  index_keep_distinct (k ∷ rest) m = do
    fail_if
        (not (eqb k.policy_generation policy.identity_policy_generation)
          || contains_key k.source.address m)
        MergeErrorCode.stale_receipt
    index_keep_distinct rest (insert_value k.source.address k m)

-- The local variables of the main loop.
pub record Progress : Type 0 where
  pub used_resolutions : BTreeSet PairKey
  pub used_keep : BTreeSet EntityAddress
  pub coalescence_targets : BTreeSet EntityAddress
  pub planned : List PlannedEntity
  pub consumed_candidates : ℕ

-- The variables of the loop over the candidates of one source.
pub record Review : Type 0 where
  pub used : BTreeSet PairKey
  pub consumed : ℕ
  pub same : Option IdentityResolutionReceipt

-- The `match` on the resolution that says `same`: each target coalesces with one source at most.
unfoldable pub conclude_review :
    Option IdentityResolutionReceipt → Progress → Result (PlannedDisposition × Progress)
conclude_review none p = ok (add reviewed_different none, p)
conclude_review (some r) p =
    if contains r.target.address p.coalescence_targets
    then err MergeErrorCode.many_to_one
    else ok (
      coalesce r.target r.hash,
      record p { coalescence_targets = insert r.target.address p.coalescence_targets },
    )

module _ (resolutions : BTreeMap PairKey IdentityResolutionReceipt) where
  unfoldable pub review_candidate : IdentityCandidate → Review → Result Review
  review_candidate c v = do
    resolution ← require (get (candidate_pair c) resolutions) MergeErrorCode.discovery_incomplete
    fail_if (not (matches_candidate resolution c)) MergeErrorCode.stale_receipt
    fail_if (is_same resolution.decision && is_some v.same) MergeErrorCode.conflicting_resolution
    ok (record {
      used = insert (candidate_pair c) v.used;
      consumed = v.consumed + 1;
      same = if is_same resolution.decision then some resolution else v.same;
    })

  unfoldable pub review_candidates : List IdentityCandidate → Review → Result Review
  review_candidates [] v = ok v
  review_candidates (c ∷ rest) v = do v' ← review_candidate c v; review_candidates rest v'

  -- No candidate of a page that is kept distinct has a resolution.
  unfoldable pub check_unresolved : List IdentityCandidate → Result (Unit {0})
  check_unresolved [] = ok tt
  check_unresolved (c ∷ rest) = do
    fail_if (contains_key (candidate_pair c) resolutions) MergeErrorCode.conflicting_resolution
    check_unresolved rest

  -- A source whose candidates were all reviewed.
  unfoldable pub dispose_reviewed :
      DiscoveryReceipt → Progress → Result (PlannedDisposition × Progress)
  dispose_reviewed d p = do
    fail_if d.truncated MergeErrorCode.discovery_incomplete
    v ←
        review_candidates d.candidates
          (record { used = p.used_resolutions; consumed = p.consumed_candidates; same = none })
    conclude_review v.same
        (record p { used_resolutions = v.used; consumed_candidates = v.consumed })

  -- A source whose page a receipt keeps distinct.
  unfoldable pub dispose_kept :
      EntityAddress
      → DiscoveryReceipt
      → KeepDistinctReceipt
      → Progress
      → Result (PlannedDisposition × Progress)
  dispose_kept source_address d k p = do
    fail_if (not (matches_discovery k d)) MergeErrorCode.stale_receipt
    check_unresolved d.candidates
    ok (
      add keep_distinct (some k.hash),
      record p {
        used_keep = insert source_address p.used_keep;
        consumed_candidates = p.consumed_candidates + length d.candidates;
      },
    )

  module _ (keeps : BTreeMap EntityAddress KeepDistinctReceipt) where
    unfoldable pub dispose :
        EntityAddress → DiscoveryReceipt → Progress → Result (PlannedDisposition × Progress)
    dispose source_address d p =
        if is_empty d.candidates
        then (if contains_key source_address keeps
            then err MergeErrorCode.conflicting_resolution
            else ok (add no_candidate none, p))
        else elim (get source_address keeps) [
          | some k ↦ dispose_kept source_address d k p
          | none ↦ dispose_reviewed d p
        ]

    abbrev pub planned_entity :
        EntityAddress → DiscoveryReceipt → PlannedDisposition → PlannedEntity
    planned_entity source_address d disposition = record {
      logical_id = source_address.logical_id;
      revision = d.source.revision;
      snapshot = d.source.snapshot;
      disposition = disposition;
    }

    unfoldable pub dispose_all :
        BTreeMap EntityAddress DiscoveryReceipt → Progress → Result Progress
    dispose_all [] p = ok p
    dispose_all ((source_address, d) ∷ rest) p = do
      disposed ← dispose source_address d p
      let p' = disposed.1
      dispose_all rest
          (record p' { planned = p'.planned ++ planned_entity source_address d disposed.0 ∷ [] })

abbrev pub no_progress : Progress
no_progress = record {
  used_resolutions = [];
  used_keep = [];
  coalescence_targets = [];
  planned = [];
  consumed_candidates = 0;
}

unfoldable pub prepare_dispositions :
    PlanningReceipts → MergePolicy → Result (List PlannedEntity × MergeAccounting)
prepare_dispositions receipts policy = do
  discoveries ← index_discoveries policy receipts.discoveries []
  resolutions ← index_resolutions policy receipts.resolutions []
  keeps ← index_keep_distinct policy receipts.keep_distinct []
  p ← dispose_all resolutions keeps discoveries no_progress
  fail_if
      (not (eqb (length p.used_resolutions) (length resolutions))
        || not (eqb (length p.used_keep) (length keeps)))
      MergeErrorCode.discovery_incomplete
  ok (
    p.planned,
    record {
      consumed_candidates = p.consumed_candidates;
      consumed_discoveries = u64_of_usize (length discoveries);
      consumed_resolutions = u64_of_usize (length p.used_resolutions);
      consumed_keep_distinct = u64_of_usize (length p.used_keep);
      result_entities = 0;
      result_observations = 0;
      result_relations = 0;
      retained_origins = 0;
    },
  )
