-- ===== src/Merge/Model.antt =====
-- `model.rs`: validated canonical records. The newtypes over `String` are texts, those over `Uuid`
-- are ids, and private fields with one constructor function are the records below.
pub mod Encode
pub mod Records
use Prim.Native.String.{String}
use openmemory.Prelude.{
  ℕ, ◌+◌, ◌*◌, ◌≡◌, refl, Bool, true, false, not, ◌&&◌, ◌||◌, Option, none, some, List, [], ◌∷◌,
  ◌++◌, length, any, Result, ok, err, MergeErrorCode, fail_if, leb, ltb, eqb, if◌then◌else◌, arith,
}
use openmemory.Prelude.Results.{◌>>=◌, ◌>>◌}
use openmemory.Prelude.Order.{Ord, ◌==◌, ord_by, nat_ord, pair_ord, list_ord, option_ord}
use openmemory.Prelude.Maps.{BTreeMap, BTreeSet, to_set, insert_value, contains_key}
use openmemory.Text.{Text, Uuid, byte_len, is_control, trim, is_empty, starts_with, literal}
use openmemory.Merge.Canonical.{Hash}

abbrev pub max_logical_id_bytes : ℕ
max_logical_id_bytes = 256

abbrev pub max_label_bytes : ℕ
max_label_bytes = 512

abbrev pub max_kind_bytes : ℕ
max_kind_bytes = 128

abbrev pub max_aliases : ℕ
max_aliases = 64

abbrev pub max_identifiers : ℕ
max_identifiers = 32

abbrev pub max_properties : ℕ
max_properties = 64

abbrev pub max_property_name_bytes : ℕ
max_property_name_bytes = 128

abbrev pub max_text_bytes : ℕ
max_text_bytes = 64 * 1024

abbrev pub max_origins : ℕ
max_origins = 1024

abbrev pub qualified_id_prefix : Text
qualified_id_prefix = literal "omq1:"

unfoldable pub valid_token : Text → ℕ → Bool
unfolding byte_len is_control trim
valid_token value max_bytes =
    not (is_empty value)
    && leb (byte_len value) max_bytes
    && not (any is_control value)
    && trim value == value

unfoldable pub valid_text : Text → ℕ → Bool
unfolding byte_len
valid_text value max_bytes =
    not (is_empty value)
    && leb (byte_len value) max_bytes
    && not (any (λ character. eqb character 0) value)

abbrev pub LogicalId : Type 0
LogicalId = Text

abbrev pub QualifiedObjectId : Type 0
QualifiedObjectId = Text

abbrev pub SpaceId : Type 0
SpaceId = Uuid

abbrev pub RevisionId : Type 0
RevisionId = Uuid

abbrev pub SnapshotId : Type 0
SnapshotId = Uuid

-- `LogicalId::new`
unfoldable pub new_logical_id : Text → Result LogicalId
unfolding valid_token
new_logical_id value =
    if not (valid_token value max_logical_id_bytes) || starts_with value qualified_id_prefix
    then err MergeErrorCode.invalid_input
    else ok value

pub data ResultObjectId : Type 0 where
  target : LogicalId → ResultObjectId
  qualified : QualifiedObjectId → ResultObjectId

-- `ResultObjectId::as_str`
unfoldable pub result_id_text : ResultObjectId → Text
result_id_text (target value) = value
result_id_text (qualified value) = value

abbrev pub result_id_key : ResultObjectId → ℕ × Text
result_id_key (target value) = (0, value)
result_id_key (qualified value) = (1, value)

pub result_id_key_injective : (a b : ResultObjectId) → result_id_key a ≡ result_id_key b → a ≡ b
result_id_key_injective (target a) (target b) h = ground arith
result_id_key_injective (target a) (qualified b) h = ground arith
result_id_key_injective (qualified a) (target b) h = ground arith
result_id_key_injective (qualified a) (qualified b) h = ground arith

instance abbrev pub result_id_ord : Ord ResultObjectId
result_id_ord = ord_by result_id_key result_id_key_injective pair_ord

pub record ObjectAddress : Type 0 where
  pub space : SpaceId
  pub logical_id : LogicalId

abbrev pub EntityAddress : Type 0
EntityAddress = ObjectAddress

abbrev pub address_key : ObjectAddress → ℕ × Text
address_key a = (a.space, a.logical_id)

pub address_key_injective : (a b : ObjectAddress) → address_key a ≡ address_key b → a ≡ b
address_key_injective a b h = ground arith

instance abbrev pub address_ord : Ord ObjectAddress
address_ord = ord_by address_key address_key_injective pair_ord

pub data Lifecycle : Type 0 where
  active retired deleted : Lifecycle

-- `lifecycle as u16`
abbrev pub lifecycle_tag : Lifecycle → ℕ
lifecycle_tag active = 0
lifecycle_tag retired = 1
lifecycle_tag deleted = 2

pub lifecycle_tag_injective : (a b : Lifecycle) → lifecycle_tag a ≡ lifecycle_tag b → a ≡ b
lifecycle_tag_injective a b h = ground arith

instance abbrev pub lifecycle_ord : Ord Lifecycle
lifecycle_ord = ord_by lifecycle_tag lifecycle_tag_injective nat_ord

pub data AssertionTrust : Type 0 where
  claimed : AssertionTrust
  -- the snapshot, the verifier's version and the resolver's generation
  source_verified : SnapshotId → Text → ℕ → AssertionTrust

abbrev pub trust_key : AssertionTrust → ℕ × (ℕ × (Text × ℕ))
trust_key claimed = (0, (0, ([], 0)))
trust_key (source_verified snapshot verifier generation) = (1, (snapshot, (verifier, generation)))

pub trust_key_injective : (a b : AssertionTrust) → trust_key a ≡ trust_key b → a ≡ b
trust_key_injective claimed claimed h = refl
trust_key_injective claimed (source_verified s v g) h = ground arith
trust_key_injective (source_verified s v g) claimed h = ground arith
trust_key_injective (source_verified s v g) (source_verified s' v' g') h = ground arith

instance abbrev pub trust_ord : Ord AssertionTrust
trust_ord = ord_by trust_key trust_key_injective pair_ord

pub record IdentifierAssertion : Type 0 where
  pub namespace : Text
  pub value : Text
  pub trust : AssertionTrust

abbrev pub identifier_key : IdentifierAssertion → Text × (Text × AssertionTrust)
identifier_key a = (a.namespace, (a.value, a.trust))

pub identifier_key_injective :
    (a b : IdentifierAssertion) → identifier_key a ≡ identifier_key b → a ≡ b
identifier_key_injective a b h = ground arith

instance abbrev pub identifier_ord : Ord IdentifierAssertion
identifier_ord = ord_by identifier_key identifier_key_injective pair_ord

pub record OriginContribution : Type 0 where
  pub origin : ObjectAddress
  pub revision : RevisionId

abbrev pub origin_key : OriginContribution → ObjectAddress × ℕ
origin_key a = (a.origin, a.revision)

pub origin_key_injective : (a b : OriginContribution) → origin_key a ≡ origin_key b → a ≡ b
origin_key_injective a b h = ground arith

instance abbrev pub origin_ord : Ord OriginContribution
origin_ord = ord_by origin_key origin_key_injective pair_ord
