-- ===== src/Merge/Evidence.antt =====
-- `evidence.rs`: the identity policy and the deterministic analysis of a pair of entities.
pub mod Analysis
use openmemory.Prelude.{
  ℕ, ◌≡◌, Bool, true, false, not, ◌&&◌, ◌||◌, Option, none, some, List, [], ◌∷◌, length, any, map,
  Result, ok, err, MergeErrorCode, fail_if, leb, eqb, if◌then◌else◌, arith,
}
use openmemory.Prelude.Results.{◌>>◌}
use openmemory.Prelude.Order.{Ord, ◌==◌, less, ord_by, nat_ord, pair_ord, list_ord, option_ord}
use openmemory.Prelude.Maps.{
  BTreeMap, BTreeSet, to_set, insert, insert_value, contains, contains_key, get,
}
use openmemory.Text.{Text, Externals, is_empty, byte_len, is_control, trim, collapse_whitespace}
use openmemory.Merge.Canonical.{
  Hash, CanonicalHasher, ◌▷◌, new, id, u16, u64, usize, text, optional_text, each, finish,
}
use openmemory.Merge.Model.{
  EntityAddress, address_ord, RevisionId, SnapshotId, AssertionTrust, IdentifierAssertion,
  max_kind_bytes,
}
use openmemory.Merge.Model.Records.{EntityRecord}
use openmemory.Merge.Model.Encode.{encode_address}

pub data KindCompatibility : Type 0 where
  compatible incompatible unknown : KindCompatibility

pub record IdentityPolicy : Type 0 where
  pub policy_generation : ℕ
  pub ontology_generation : ℕ
  pub authoritative_namespaces : BTreeMap Text ℕ
  pub kind_relations : BTreeMap (Text × Text) KindCompatibility

-- `IdentityPolicy::new`
unfoldable pub new_identity_policy : ℕ → ℕ → Result IdentityPolicy
new_identity_policy policy_generation ontology_generation =
    if eqb policy_generation 0 || eqb ontology_generation 0
    then err MergeErrorCode.invalid_input
    else ok (record {
      policy_generation = policy_generation;
      ontology_generation = ontology_generation;
      authoritative_namespaces = [];
      kind_relations = [];
    })

valid_policy_token : Text → Bool
unfolding byte_len is_control trim
valid_policy_token value =
    not (is_empty value)
    && leb (byte_len value) max_kind_bytes
    && trim value == value
    && not (any is_control value)

unfoldable pub with_authoritative_namespace : Text → ℕ → IdentityPolicy → Result IdentityPolicy
unfolding valid_policy_token
with_authoritative_namespace namespace resolver_generation policy = do
  fail_if (not (valid_policy_token namespace) || eqb resolver_generation 0)
      MergeErrorCode.invalid_input
  fail_if (contains_key namespace policy.authoritative_namespaces) MergeErrorCode.duplicate_input
  ok (record policy {
    authoritative_namespaces =
        insert_value namespace resolver_generation policy.authoritative_namespaces;
  })

unfoldable pub canonical_kind_pair : Text → Text → Text × Text
canonical_kind_pair left right = if less right left then (right, left) else (left, right)

unfoldable pub with_kind_relation :
    Text → Text → KindCompatibility → IdentityPolicy → Result IdentityPolicy
unfolding valid_policy_token canonical_kind_pair
with_kind_relation left right relation policy = do
  fail_if (not (valid_policy_token left) || not (valid_policy_token right))
      MergeErrorCode.invalid_input
  let pair = canonical_kind_pair left right
  fail_if (contains_key pair policy.kind_relations) MergeErrorCode.duplicate_input
  ok (record policy { kind_relations = insert_value pair relation policy.kind_relations })

-- `IdentityPolicy::resolver_generation`
unfoldable pub resolver_generation : IdentityPolicy → Text → Option ℕ
resolver_generation policy namespace = get namespace policy.authoritative_namespaces

unfoldable pub kind_compatibility : IdentityPolicy → Option Text → Option Text → KindCompatibility
unfolding canonical_kind_pair
kind_compatibility policy (some left) (some right) =
    if left == right
    then KindCompatibility.compatible
    else elim (get (canonical_kind_pair left right) policy.kind_relations) [
      | some relation ↦ relation
      | none ↦ KindCompatibility.unknown
    ]
kind_compatibility policy none right = KindCompatibility.unknown
kind_compatibility policy (some left) none = KindCompatibility.unknown

pub record EntityRevisionRef : Type 0 where
  pub address : EntityAddress
  pub revision : RevisionId
  pub snapshot : SnapshotId

abbrev pub revision_ref_key : EntityRevisionRef → EntityAddress × (ℕ × ℕ)
revision_ref_key r = (r.address, (r.revision, r.snapshot))

pub revision_ref_key_injective :
    (a b : EntityRevisionRef) → revision_ref_key a ≡ revision_ref_key b → a ≡ b
revision_ref_key_injective a b h = ground arith

instance abbrev pub revision_ref_ord : Ord EntityRevisionRef
revision_ref_ord = ord_by revision_ref_key revision_ref_key_injective pair_ord

pub data EvidenceKind : Type 0 where
  lineage verified_identifier_match verified_identifier_conflict exact_label alias : EvidenceKind
  claimed_identifier kind_incompatible : EvidenceKind

-- `kind as u16`
abbrev pub evidence_kind_tag : EvidenceKind → ℕ
evidence_kind_tag lineage = 0
evidence_kind_tag verified_identifier_match = 1
evidence_kind_tag verified_identifier_conflict = 2
evidence_kind_tag exact_label = 3
evidence_kind_tag alias = 4
evidence_kind_tag claimed_identifier = 5
evidence_kind_tag kind_incompatible = 6

pub evidence_kind_tag_injective :
    (a b : EvidenceKind) → evidence_kind_tag a ≡ evidence_kind_tag b → a ≡ b
evidence_kind_tag_injective a b h = ground arith

instance abbrev pub evidence_kind_ord : Ord EvidenceKind
evidence_kind_ord = ord_by evidence_kind_tag evidence_kind_tag_injective nat_ord

pub record EvidenceItem : Type 0 where
  pub kind : EvidenceKind
  pub namespace : Option Text
  pub left : Text
  pub right : Text

abbrev pub evidence_item_key : EvidenceItem → EvidenceKind × (Option Text × (Text × Text))
evidence_item_key i = (i.kind, (i.namespace, (i.left, i.right)))

pub evidence_item_key_injective :
    (a b : EvidenceItem) → evidence_item_key a ≡ evidence_item_key b → a ≡ b
evidence_item_key_injective a b h = ground arith

instance abbrev pub evidence_item_ord : Ord EvidenceItem
evidence_item_ord = ord_by evidence_item_key evidence_item_key_injective pair_ord

pub data DeterministicResolution : Type 0 where
  proof_same proof_different conflicting_proofs review_or_separate : DeterministicResolution

abbrev pub resolution_tag : DeterministicResolution → ℕ
resolution_tag proof_same = 0
resolution_tag proof_different = 1
resolution_tag conflicting_proofs = 2
resolution_tag review_or_separate = 3

pub record IdentityPacket : Type 0 where
  pub left : EntityRevisionRef
  pub right : EntityRevisionRef
  pub policy_generation : ℕ
  pub ontology_generation : ℕ
  pub resolver_generations : BTreeMap Text ℕ
  pub evidence : List EvidenceItem
  pub resolution : DeterministicResolution
  pub hash : Hash
