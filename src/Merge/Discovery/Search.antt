-- ===== src/Merge/Discovery/Search.antt =====
-- `discovery.rs`: `CandidateIndex::build` and `CandidateIndex::discover`.
use Prim.Native.Nat.{Ordering}
use openmemory.Prelude.{
  ℕ, Bool, ◌||◌, Option, none, some, List, [], ◌∷◌, length, take, filter_map, Result, ok, err,
  MergeErrorCode, fail_if, ltb, eqb, if◌then◌else◌,
}
use openmemory.Prelude.Results.{◌>>◌}
use openmemory.Prelude.Order.{nat_ord, pair_ord, list_ord, option_ord, then_cmp}
use openmemory.Prelude.Maps.{BTreeMap, BTreeSet, insert_value, contains_key, get}
use openmemory.Prelude.Sorting.{sort_by}
use openmemory.Text.{Text, Externals}
use openmemory.Merge.Canonical.{
  Hash, ◌▷◌, new, u16, u64, usize, u64_of_usize, bool, hash, each, finish,
}
use openmemory.Merge.Model.{EntityAddress, address_ord, SnapshotId, IdentifierAssertion}
use openmemory.Merge.Model.Records.{EntityRecord}
use openmemory.Merge.Evidence.{IdentityPolicy, EntityRevisionRef, resolver_generation}
use openmemory.Merge.Evidence.Analysis.{
  encode_revision_ref, normalize_label, revision_ref, for_each,
}
use openmemory.Merge.Discovery.{
  max_candidate_cap, CandidateSignal, signal_tag, signal_ord, IdentityCandidate, priority,
  DiscoveryReceipt, CandidateIndex, is_current_verified, insert_at, add_matches, index_lineage,
  index_identifier, lineage, verified_identifier, exact_label, alias,
}

module _ ⦃ext : Externals⦄ where
  -- `IdentityCandidate::new`
  unfoldable pub new_candidate :
      EntityRevisionRef → EntityRevisionRef → BTreeSet CandidateSignal → IdentityCandidate
  unfolding encode_revision_ref new u16 usize each finish
  new_candidate target source signals = record {
    target = target;
    source = source;
    signals = signals;
    hash =
        new "openmemory/identity-candidate/v1"
        ▷ encode_revision_ref target
        ▷ encode_revision_ref source
        ▷ usize (length signals)
        ▷ each (λ signal. u16 (signal_tag signal)) signals
        ▷ finish;
  }

  index_alias : EntityAddress → Option Text → Text → CandidateIndex → CandidateIndex
  unfolding insert_at normalize_label
  index_alias address kind a index = record index {
    aliases = insert_at (normalize_label a, kind) address index.aliases;
  }

  -- One round of the loop of `CandidateIndex::build`, for an entity that is not in the index.
  unfoldable pub index_entity : EntityRecord → CandidateIndex → CandidateIndex
  unfolding index_lineage index_identifier index_alias insert_at normalize_label for_each
  index_entity entity index =
      let address = entity.address in
      let with_ids =
        for_each (index_identifier address) entity.identifiers
          (index_lineage address entity.lineage index) in
      let labelled : CandidateIndex = record with_ids {
        labels = insert_at (normalize_label entity.label, entity.kind) address with_ids.labels;
      } in
      let named = for_each (index_alias address entity.kind) entity.aliases labelled in
      record named { entities = insert_value address entity named.entities }

  unfoldable pub index_all : List EntityRecord → CandidateIndex → Result CandidateIndex
  index_all [] index = ok index
  index_all (entity ∷ rest) index =
      if contains_key entity.address index.entities
      then err MergeErrorCode.duplicate_input
      else index_all rest (index_entity entity index)

  -- `CandidateIndex::build`
  unfoldable pub build : ℕ → SnapshotId → IdentityPolicy → List EntityRecord → Result CandidateIndex
  build discovery_generation target_snapshot policy entities =
      if eqb discovery_generation 0
      then err MergeErrorCode.invalid_input
      else index_all entities (record {
        discovery_generation = discovery_generation;
        target_snapshot = target_snapshot;
        policy = policy;
        entities = [];
        lineage = [];
        verified = [];
        labels = [];
        aliases = [];
      })

  match_lineage :
      CandidateIndex
      → Option Text
      → BTreeMap EntityAddress (BTreeSet CandidateSignal)
      → BTreeMap EntityAddress (BTreeSet CandidateSignal)
  unfolding add_matches
  match_lineage index none m = m
  match_lineage index (some l) m = add_matches (get l index.lineage) lineage m

  match_identifier :
      CandidateIndex
      → SnapshotId
      → IdentifierAssertion
      → BTreeMap EntityAddress (BTreeSet CandidateSignal)
      → BTreeMap EntityAddress (BTreeSet CandidateSignal)
  unfolding add_matches is_current_verified resolver_generation
  match_identifier index source_snapshot i m =
      if is_current_verified i.trust source_snapshot (resolver_generation index.policy i.namespace)
      then add_matches (get (i.namespace, i.value) index.verified) verified_identifier m
      else m

  match_alias :
      CandidateIndex
      → Option Text
      → Text
      → BTreeMap EntityAddress (BTreeSet CandidateSignal)
      → BTreeMap EntityAddress (BTreeSet CandidateSignal)
  unfolding add_matches normalize_label
  match_alias index kind a m =
      add_matches (get (normalize_label a, kind) index.aliases) alias
        (add_matches (get (normalize_label a, kind) index.labels) alias m)

  -- The addresses that the source entity matches, with their signals.
  unfoldable pub matches_of :
      CandidateIndex → EntityRecord → SnapshotId → BTreeMap EntityAddress (BTreeSet CandidateSignal)
  unfolding match_lineage match_identifier match_alias add_matches normalize_label for_each
  matches_of index source source_snapshot =
      for_each (match_alias index source.kind) source.aliases (
        add_matches (get (normalize_label source.label, source.kind) index.labels) exact_label (
          for_each (match_identifier index source_snapshot) source.identifiers
            (match_lineage index source.lineage [])))

  unfoldable pub candidate_of :
      CandidateIndex
      → EntityRevisionRef
      → EntityAddress × BTreeSet CandidateSignal
      → Option IdentityCandidate
  candidate_of index source_ref (address, signals) = elim (get address index.entities) [
    | none ↦ none
    | some target ↦
        some (new_candidate (revision_ref target index.target_snapshot) source_ref signals)
  ]

  -- The order of a page: stronger signals first, then by address.
  abbrev pub page_order : IdentityCandidate → IdentityCandidate → Ordering
  page_order l r =
      then_cmp (signal_ord.cmp (priority l) (priority r))
        (address_ord.cmp l.target.address r.target.address)

  unfoldable pub hash_discovery :
      ℕ → ℕ → EntityRevisionRef → List IdentityCandidate → ℕ → ℕ → Bool → Hash
  unfolding encode_revision_ref new u64 usize each hash u16 bool finish
  hash_discovery discovery_generation policy_generation source candidates total_lower_bound cap
        truncated =
      new "openmemory/discovery-receipt/v1"
      ▷ u64 discovery_generation
      ▷ u64 policy_generation
      ▷ encode_revision_ref source
      ▷ usize (length candidates)
      ▷ each (λ (c : IdentityCandidate). hash c.hash) candidates
      ▷ u64 total_lower_bound
      ▷ u16 cap
      ▷ bool truncated
      ▷ finish

  -- All candidates in the order of the page, before it is cut at the cap.
  unfoldable pub all_candidates :
      CandidateIndex → EntityRecord → SnapshotId → List IdentityCandidate
  all_candidates index source source_snapshot = sort_by page_order (
      filter_map (candidate_of index (revision_ref source source_snapshot))
        (matches_of index source source_snapshot))

  -- `CandidateIndex::discover`
  unfoldable pub discover : CandidateIndex → EntityRecord → SnapshotId → ℕ → Result DiscoveryReceipt
  discover index source source_snapshot cap = do
    fail_if (eqb cap 0 || ltb max_candidate_cap cap) MergeErrorCode.bound_exceeded
    let source_ref = revision_ref source source_snapshot
    let total = u64_of_usize (length (matches_of index source source_snapshot))
    let candidates = all_candidates index source source_snapshot
    let truncated = ltb cap (length candidates)
    let page = take cap candidates
    ok (record {
      discovery_generation = index.discovery_generation;
      policy_generation = index.policy.policy_generation;
      source = source_ref;
      candidates = page;
      total_lower_bound = total;
      cap = cap;
      truncated = truncated;
      hash =
          hash_discovery index.discovery_generation index.policy.policy_generation source_ref page
            total cap truncated;
    })
