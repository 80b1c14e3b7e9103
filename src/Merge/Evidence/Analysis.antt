-- ===== src/Merge/Evidence/Analysis.antt =====
-- `evidence.rs`: the deterministic analysis of a pair of entities, `analyze_pair`.
use openmemory.Prelude.{
  ℕ, Bool, true, false, not, ◌&&◌, Option, none, some, List, [], ◌∷◌, length, any, map, Result, ok,
  MergeErrorCode, fail_if, eqb, if◌then◌else◌,
}
use openmemory.Prelude.Results.{◌>>◌}
use openmemory.Prelude.Order.{◌==◌, nat_ord, pair_ord, list_ord, option_ord}
use openmemory.Prelude.Maps.{BTreeMap, BTreeSet, to_set, insert, insert_value, contains}
use openmemory.Text.{Text, Externals, collapse_whitespace}
use openmemory.Merge.Canonical.{
  Hash, CanonicalHasher, ◌▷◌, new, id, u16, u64, usize, text, optional_text, each, finish,
}
use openmemory.Merge.Model.{address_ord, SnapshotId, AssertionTrust, IdentifierAssertion}
use openmemory.Merge.Model.Records.{EntityRecord}
use openmemory.Merge.Model.Encode.{encode_address}
use openmemory.Merge.Evidence.{
  KindCompatibility, IdentityPolicy, resolver_generation, kind_compatibility, EntityRevisionRef,
  revision_ref_ord, EvidenceKind, evidence_kind_tag, evidence_kind_ord, EvidenceItem,
  evidence_item_ord, DeterministicResolution, resolution_tag, IdentityPacket, lineage,
  verified_identifier_match, verified_identifier_conflict, exact_label, alias, claimed_identifier,
  kind_incompatible, proof_same, proof_different, conflicting_proofs, review_or_separate,
}

unfoldable pub is_current_verified : IdentifierAssertion → SnapshotId → ℕ → Bool
is_current_verified assertion expected_snapshot required_generation = elim assertion.trust [
  | AssertionTrust.claimed ↦ false
  | AssertionTrust.source_verified source_snapshot verifier generation ↦
      eqb source_snapshot expected_snapshot && eqb generation required_generation
]

-- The local variables that the loops of `analyze_pair` write.
pub record Findings : Type 0 where
  pub evidence : BTreeSet EvidenceItem
  pub proves_same : Bool
  pub proves_different : Bool
  pub resolver_generations : BTreeMap Text ℕ

abbrev pub add_evidence : EvidenceItem → Findings → Findings
add_evidence item f = record f { evidence = insert item f.evidence }

abbrev identifier_item : EvidenceKind → IdentifierAssertion → IdentifierAssertion → EvidenceItem
identifier_item kind l r = record {
  kind = kind;
  namespace = some l.namespace;
  left = l.value;
  right = r.value;
}

-- The body of the inner loop for an authoritative namespace.
compare_verified :
    KindCompatibility
    → SnapshotId
    → SnapshotId
    → ℕ
    → IdentifierAssertion
    → IdentifierAssertion
    → Findings
    → Findings
unfolding is_current_verified
compare_verified kinds left_snapshot right_snapshot required l r f =
    if is_current_verified l left_snapshot required && is_current_verified r right_snapshot required
    then elim (l.value == r.value) [
      | true ↦ elim kinds [
        | KindCompatibility.compatible ↦
            record (add_evidence (identifier_item verified_identifier_match l r) f) {
              proves_same = true;
            }
        | KindCompatibility.incompatible ↦ f
        | KindCompatibility.unknown ↦ f
      ]
      | false ↦ record (add_evidence (identifier_item verified_identifier_conflict l r) f) {
        proves_different = true;
      }
    ]
    else if l.value == r.value
    then add_evidence (identifier_item claimed_identifier l r) f
    else f

-- The body of the inner loop.
unfoldable pub compare_identifiers :
    IdentityPolicy
    → KindCompatibility
    → SnapshotId
    → SnapshotId
    → IdentifierAssertion
    → IdentifierAssertion
    → Findings
    → Findings
unfolding resolver_generation compare_verified
compare_identifiers policy kinds left_snapshot right_snapshot l r f =
    if l.namespace == r.namespace
    then elim (resolver_generation policy l.namespace) [
      | none ↦
          if l.value == r.value then add_evidence (identifier_item claimed_identifier l r) f else f
      | some required ↦ compare_verified kinds left_snapshot right_snapshot required l r (record f {
        resolver_generations = insert_value l.namespace required f.resolver_generations;
      })
    ]
    else f

-- A `for` loop over local variables.
unfoldable pub for_each {ℓ κ} : {A : Type ℓ} {S : Type κ} → (A → S → S) → List A → S → S
for_each body [] s = s
for_each body (x ∷ xs) s = for_each body xs (body x s)

unfoldable pub compare_all_identifiers :
    IdentityPolicy
    → KindCompatibility
    → SnapshotId
    → SnapshotId
    → EntityRecord
    → EntityRecord
    → Findings
    → Findings
compare_all_identifiers policy kinds left_snapshot right_snapshot left right =
    for_each
      (λ l.
        for_each (compare_identifiers policy kinds left_snapshot right_snapshot l)
          right.identifiers)
      left.identifiers

-- Evidence from a shared lineage, which proves identity.
unfoldable pub compare_lineage : Option Text → Option Text → Findings → Findings
compare_lineage (some l) (some r) f =
    if l == r
    then record (add_evidence (record { kind = lineage; namespace = none; left = l; right = r })
        f) { proves_same = true }
    else f
compare_lineage none r f = f
compare_lineage (some l) none f = f

abbrev or_empty : Option Text → Text
or_empty none = []
or_empty (some t) = t

unfoldable pub note_kinds : KindCompatibility → Option Text → Option Text → Findings → Findings
note_kinds KindCompatibility.incompatible l r f =
    add_evidence
      (record { kind = kind_incompatible; namespace = none; left = or_empty l; right = or_empty r })
      f
note_kinds KindCompatibility.compatible l r f = f
note_kinds KindCompatibility.unknown l r f = f

unfoldable pub resolution_of : Bool → Bool → DeterministicResolution
resolution_of true true = conflicting_proofs
resolution_of true false = proof_same
resolution_of false true = proof_different
resolution_of false false = review_or_separate

encode_generation : Text × ℕ → CanonicalHasher → CanonicalHasher
unfolding text u64
encode_generation (namespace, generation) h = h ▷ text namespace ▷ u64 generation

encode_evidence : EvidenceItem → CanonicalHasher → CanonicalHasher
unfolding u16 optional_text text
encode_evidence i h =
    h ▷ u16 (evidence_kind_tag i.kind) ▷ optional_text i.namespace ▷ text i.left ▷ text i.right

module _ ⦃ext : Externals⦄ where
  unfoldable pub normalize_label : Text → Text
  unfolding collapse_whitespace
  normalize_label label = ext.to_lowercase (collapse_whitespace label)

  unfoldable pub normalized_names : EntityRecord → BTreeSet Text
  unfolding normalize_label
  normalized_names e = to_set (normalize_label e.label ∷ map normalize_label e.aliases)

  unfoldable pub encode_revision_ref : EntityRevisionRef → CanonicalHasher → CanonicalHasher
  unfolding encode_address id
  encode_revision_ref r h = h ▷ encode_address r.address ▷ id r.revision ▷ id r.snapshot

  unfoldable pub hash_packet :
      EntityRevisionRef
      → EntityRevisionRef
      → IdentityPolicy
      → BTreeMap Text ℕ
      → List EvidenceItem
      → DeterministicResolution
      → Hash
  unfolding encode_revision_ref encode_generation encode_evidence new u16 u64 usize each finish
  hash_packet left right policy generations evidence resolution =
      new "openmemory/identity-packet/v1"
      ▷ encode_revision_ref left
      ▷ encode_revision_ref right
      ▷ u64 policy.policy_generation
      ▷ u64 policy.ontology_generation
      ▷ usize (length generations)
      ▷ each encode_generation generations
      ▷ usize (length evidence)
      ▷ each encode_evidence evidence
      ▷ u16 (resolution_tag resolution)
      ▷ finish

  -- Evidence from labels and aliases, which proves nothing.
  unfoldable pub compare_names : EntityRecord → EntityRecord → Findings → Findings
  unfolding normalize_label normalized_names
  compare_names left right f =
      let l = normalize_label left.label in
      let r = normalize_label right.label in
      let labelled =
        if l == r
        then add_evidence (record { kind = exact_label; namespace = none; left = l; right = r }) f
        else f in
      if any (λ name. contains name (normalized_names right) && not (name == l))
        (normalized_names left)
      then add_evidence
          (record { kind = alias; namespace = none; left = left.label; right = right.label })
          labelled
      else labelled

  -- All that `analyze_pair` finds, before it draws its conclusion.
  unfoldable pub findings :
      EntityRecord → SnapshotId → EntityRecord → SnapshotId → IdentityPolicy → Findings
  findings left left_snapshot right right_snapshot policy =
      let kinds = kind_compatibility policy left.kind right.kind in
      let start : Findings = record {
        evidence = [];
        proves_same = false;
        proves_different = false;
        resolver_generations = [];
      } in
      compare_names left right (
        compare_all_identifiers policy kinds left_snapshot right_snapshot left right (
          note_kinds kinds left.kind right.kind (compare_lineage left.lineage right.lineage start)))

  abbrev pub revision_ref : EntityRecord → SnapshotId → EntityRevisionRef
  revision_ref e snapshot = record {
    address = e.address;
    revision = e.revision;
    snapshot = snapshot;
  }

  unfoldable pub analyze_pair :
      EntityRecord → SnapshotId → EntityRecord → SnapshotId → IdentityPolicy → Result IdentityPacket
  analyze_pair left left_snapshot right right_snapshot policy = do
    fail_if (left.address == right.address) MergeErrorCode.invalid_input
    let left_ref = revision_ref left left_snapshot
    let right_ref = revision_ref right right_snapshot
    let f = findings left left_snapshot right right_snapshot policy
    let resolution = resolution_of f.proves_same f.proves_different
    ok (record {
      left = left_ref;
      right = right_ref;
      policy_generation = policy.policy_generation;
      ontology_generation = policy.ontology_generation;
      resolver_generations = f.resolver_generations;
      evidence = f.evidence;
      resolution = resolution;
      hash = hash_packet left_ref right_ref policy f.resolver_generations f.evidence resolution;
    })
