-- ===== src/Merge/Planner.antt =====
-- `planner.rs`: the policy, the receipts that a run consumes, the actions and the finished plan.
pub mod Sink
pub mod Published
pub mod Checked
pub mod Justified
pub mod Bounded
pub mod Kept
pub mod Failed
pub mod Counted
pub mod Verified
pub mod Emission
pub mod Entities
pub mod Observations
pub mod Relations
pub mod Run
pub mod Stream
pub mod Dispositions
pub mod Tokens
pub mod Verifier
use openmemory.Prelude.{
  ℕ, ◌+◌, ◌*◌, ◌≡◌, refl, Bool, true, false, ◌&&◌, ◌||◌, Option, none, some, List, [], ◌∷◌, ◌++◌,
  length, any, Result, ok, err, MergeErrorCode, fail_if, ltb, eqb, if◌then◌else◌, arith,
}
use openmemory.Prelude.Results.{◌>>=◌, ◌>>◌}
use openmemory.Prelude.Order.{Ord, ◌==◌, ord_by, nat_ord, pair_ord, list_ord}
use openmemory.Prelude.Maps.{BTreeSet, to_set, contains}
use openmemory.Text.{Text, is_empty, byte_len, is_control}
use openmemory.Merge.Canonical.{Hash}
use openmemory.Merge.Model.{SpaceId, LogicalId, QualifiedObjectId, ResultObjectId, EntityAddress}
use openmemory.Merge.Model.Records.{
  EntityRecord, ObservationRecord, RelationRecord, SpaceVersion, SnapshotHeader, version_ord,
}
use openmemory.Merge.Discovery.{DiscoveryReceipt}
use openmemory.Merge.Receipt.{IdentityResolutionReceipt, KeepDistinctReceipt}

abbrev pub merge_plan_version : ℕ
merge_plan_version = 1

abbrev pub max_actions : ℕ
max_actions = 3_000_000

pub record MergePolicy : Type 0 where
  pub version : ℕ
  pub identity_policy_generation : ℕ
  pub allowed_self_loop_predicates : BTreeSet Text

-- `MergePolicy::new`
unfoldable pub new_policy : ℕ → ℕ → Result MergePolicy
new_policy version identity_policy_generation =
    if eqb version 0 || eqb identity_policy_generation 0
    then err MergeErrorCode.invalid_input
    else ok (record {
      version = version;
      identity_policy_generation = identity_policy_generation;
      allowed_self_loop_predicates = [];
    })

-- `MergePolicy::with_allowed_self_loops`
unfoldable pub with_allowed_self_loops : List Text → MergePolicy → Result MergePolicy
unfolding byte_len is_control
with_allowed_self_loops ps policy =
    let predicates = to_set ps in
    if ltb 64 (length predicates)
      || any
          (λ predicate.
            is_empty predicate || ltb 128 (byte_len predicate) || any is_control predicate)
          predicates
    then err MergeErrorCode.bound_exceeded
    else ok (record policy { allowed_self_loop_predicates = predicates })

-- `MergePolicy::allows_self_loop`
unfoldable pub allows_self_loop : MergePolicy → Text → Bool
allows_self_loop policy predicate = contains predicate policy.allowed_self_loop_predicates

pub record PlanningReceipts : Type 0 where
  pub discoveries : List DiscoveryReceipt
  pub resolutions : List IdentityResolutionReceipt
  pub keep_distinct : List KeepDistinctReceipt

pub data DistinctReason : Type 0 where
  no_candidate reviewed_different keep_distinct : DistinctReason

abbrev pub reason_tag : DistinctReason → ℕ
reason_tag no_candidate = 0
reason_tag reviewed_different = 1
reason_tag keep_distinct = 2

pub data EntityDisposition : Type 0 where
  -- source, target, receipt
  coalesce : EntityAddress → EntityAddress → Hash → EntityDisposition
  -- source, result, reason, receipt
  add_distinct :
      EntityAddress → QualifiedObjectId → DistinctReason → Option Hash → EntityDisposition

pub data MergeAction : Type 0 where
  keep_target_entity : EntityRecord → MergeAction
  apply_entity_disposition : EntityRecord → EntityDisposition → MergeAction
  -- record, result entity
  keep_target_observation : ObservationRecord → ResultObjectId → MergeAction
  -- record, result, result entity
  add_observation : ObservationRecord → QualifiedObjectId → ResultObjectId → MergeAction
  -- record, target, result entity
  merge_observation_origin : ObservationRecord → ResultObjectId → ResultObjectId → MergeAction
  -- record, result subject, result object
  keep_target_relation : RelationRecord → ResultObjectId → ResultObjectId → MergeAction
  -- record, result, result subject, result object
  add_relation : RelationRecord → QualifiedObjectId → ResultObjectId → ResultObjectId → MergeAction
  -- record, target, result subject, result object
  merge_relation_origin :
      RelationRecord → ResultObjectId → ResultObjectId → ResultObjectId → MergeAction

pub record ActionCounts : Type 0 where
  pub target_entities : ℕ
  pub source_entities : ℕ
  pub coalesced_entities : ℕ
  pub added_entities : ℕ
  pub target_observations : ℕ
  pub source_observations : ℕ
  pub added_observations : ℕ
  pub merged_observations : ℕ
  pub target_relations : ℕ
  pub source_relations : ℕ
  pub added_relations : ℕ
  pub merged_relations : ℕ

-- `ActionCounts::default`
abbrev pub no_counts : ActionCounts
no_counts = record {
  target_entities = 0;
  source_entities = 0;
  coalesced_entities = 0;
  added_entities = 0;
  target_observations = 0;
  source_observations = 0;
  added_observations = 0;
  merged_observations = 0;
  target_relations = 0;
  source_relations = 0;
  added_relations = 0;
  merged_relations = 0;
}

unfoldable pub total_actions : ActionCounts → ℕ
total_actions c =
    c.target_entities + c.source_entities + c.target_observations + c.source_observations
    + c.target_relations + c.source_relations

pub record MergeAccounting : Type 0 where
  pub consumed_candidates : ℕ
  pub consumed_discoveries : ℕ
  pub consumed_resolutions : ℕ
  pub consumed_keep_distinct : ℕ
  pub result_entities : ℕ
  pub result_observations : ℕ
  pub result_relations : ℕ
  pub retained_origins : ℕ

pub record PlanPrelude : Type 0 where
  pub version : ℕ
  pub source_space : SpaceId
  pub target_space : SpaceId
  pub source_snapshot_hash : Hash
  pub target_snapshot_hash : Hash
  pub expected_target_version : SpaceVersion
  pub policy_version : ℕ
  pub identity_policy_generation : ℕ

abbrev pub prelude_key : PlanPrelude → ℕ × (ℕ × (ℕ × (Hash × (Hash × (SpaceVersion × (ℕ × ℕ))))))
prelude_key p = (
  p.version,
  (
    p.source_space,
    (
      p.target_space,
      (
        p.source_snapshot_hash,
        (
          p.target_snapshot_hash,
          (p.expected_target_version, (p.policy_version, p.identity_policy_generation)),
        ),
      ),
    ),
  ),
)

pub prelude_key_injective : (a b : PlanPrelude) → prelude_key a ≡ prelude_key b → a ≡ b
prelude_key_injective a b h = ground arith

instance abbrev pub prelude_ord : Ord PlanPrelude
prelude_ord = ord_by prelude_key prelude_key_injective pair_ord

abbrev pub counts_key : ActionCounts → List ℕ
counts_key c =
    c.target_entities ∷ c.source_entities ∷ c.coalesced_entities ∷ c.added_entities
    ∷ c.target_observations ∷ c.source_observations ∷ c.added_observations ∷ c.merged_observations
    ∷ c.target_relations ∷ c.source_relations ∷ c.added_relations ∷ c.merged_relations ∷ []

pub counts_key_injective : (a b : ActionCounts) → counts_key a ≡ counts_key b → a ≡ b
counts_key_injective a b h = ground arith

instance abbrev pub counts_ord : Ord ActionCounts
counts_ord = ord_by counts_key counts_key_injective list_ord

pub record MergePlan : Type 0 where
  pub prelude : PlanPrelude
  pub action_stream_hash : Hash
  pub action_counts : ActionCounts
  pub accounting : MergeAccounting
  pub predicted_result_hash : Hash
  pub plan_hash : Hash

-- The trait `ActionSink`, over the state of its implementor.
pub record ActionSink (S : Type 0) : Type 0 where
  pub begin : PlanPrelude → S → Result (Unit {0}) × S
  pub emit : MergeAction → S → Result (Unit {0}) × S
  pub finish : MergePlan → S → Result (Unit {0}) × S
  pub abort : S → S
