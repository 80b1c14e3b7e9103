-- ===== src/Merge/Planner/Tokens.antt =====
-- The encoding of actions, the tokens of the predicted result, and the hash of a plan.
use openmemory.Prelude.{ℕ, ◌+◌, ◌≡◌, true, false, Option, none, some, List, ◌∷◌, length, map, arith}
use openmemory.Prelude.Order.{Ord, ord_by, nat_ord, pair_ord, list_ord}
use openmemory.Prelude.Maps.{BTreeSet}
use openmemory.Text.{Externals}
use openmemory.Merge.Canonical.{
  Hash, CanonicalHasher, ◌▷◌, new, id, u16, u64, usize, text, bool, hash, each, finish,
}
use openmemory.Merge.Model.{ResultObjectId, OriginContribution, lifecycle_tag}
use openmemory.Merge.Model.Records.{EntityRecord, ObservationRecord, RelationRecord}
use openmemory.Merge.Model.Encode.{
  encode_address, encode_entity, encode_entity_fields, encode_observation, encode_relation,
  encode_result_id, encode_origin, encode_space_version,
}
use openmemory.Merge.Planner.{
  EntityDisposition, coalesce, add_distinct, MergeAction, keep_target_entity,
  apply_entity_disposition, keep_target_observation, add_observation, merge_observation_origin,
  keep_target_relation, add_relation, merge_relation_origin, ActionCounts, MergeAccounting,
  PlanPrelude, reason_tag,
}

pub record ResultToken : Type 0 where
  pub kind : ℕ
  pub value : Hash

abbrev pub token_key : ResultToken → ℕ × Hash
token_key t = (t.kind, t.value)

pub token_key_injective : (a b : ResultToken) → token_key a ≡ token_key b → a ≡ b
token_key_injective a b h = ground arith

instance abbrev pub token_ord : Ord ResultToken
token_ord = ord_by token_key token_key_injective pair_ord

encode_receipt : Option Hash → CanonicalHasher → CanonicalHasher
unfolding bool hash
encode_receipt none h = bool false h
encode_receipt (some receipt) h = h ▷ bool true ▷ hash receipt

unfoldable pub encode_counts : ActionCounts → CanonicalHasher → CanonicalHasher
unfolding u64
encode_counts c h =
    h
    ▷ u64 c.target_entities
    ▷ u64 c.source_entities
    ▷ u64 c.coalesced_entities
    ▷ u64 c.added_entities
    ▷ u64 c.target_observations
    ▷ u64 c.source_observations
    ▷ u64 c.added_observations
    ▷ u64 c.merged_observations
    ▷ u64 c.target_relations
    ▷ u64 c.source_relations
    ▷ u64 c.added_relations
    ▷ u64 c.merged_relations

unfoldable pub encode_accounting : MergeAccounting → CanonicalHasher → CanonicalHasher
unfolding u64
encode_accounting a h =
    h
    ▷ u64 a.consumed_candidates
    ▷ u64 a.consumed_discoveries
    ▷ u64 a.consumed_resolutions
    ▷ u64 a.consumed_keep_distinct
    ▷ u64 a.result_entities
    ▷ u64 a.result_observations
    ▷ u64 a.result_relations
    ▷ u64 a.retained_origins

encode_token : ResultToken → CanonicalHasher → CanonicalHasher
unfolding u16 hash
encode_token t h = h ▷ u16 t.kind ▷ hash t.value

module _ ⦃ext : Externals⦄ where
  encode_disposition : EntityDisposition → CanonicalHasher → CanonicalHasher
  unfolding u16 encode_address hash text encode_receipt
  encode_disposition (coalesce source target receipt) h =
      h ▷ u16 1 ▷ encode_address source ▷ encode_address target ▷ hash receipt
  encode_disposition (add_distinct source result reason receipt) h =
      h
      ▷ u16 2
      ▷ encode_address source
      ▷ text result
      ▷ u16 (reason_tag reason)
      ▷ encode_receipt receipt

  unfoldable pub encode_action : MergeAction → CanonicalHasher → CanonicalHasher
  unfolding encode_disposition encode_entity encode_observation encode_relation encode_result_id u16
      text
  encode_action (keep_target_entity target) h = h ▷ u16 1 ▷ encode_entity target
  encode_action (apply_entity_disposition source disposition) h =
      h ▷ u16 2 ▷ encode_entity source ▷ encode_disposition disposition
  encode_action (keep_target_observation target result_entity) h =
      h ▷ u16 3 ▷ encode_observation target ▷ encode_result_id result_entity
  encode_action (add_observation source result result_entity) h =
      h ▷ u16 4 ▷ encode_observation source ▷ text result ▷ encode_result_id result_entity
  encode_action (merge_observation_origin source onto result_entity) h =
      h ▷ u16 5 ▷ encode_observation source ▷ encode_result_id onto ▷ encode_result_id result_entity
  encode_action (keep_target_relation target subject object) h =
      h ▷ u16 6 ▷ encode_relation target ▷ encode_result_id subject ▷ encode_result_id object
  encode_action (add_relation source result subject object) h =
      h
      ▷ u16 7
      ▷ encode_relation source
      ▷ text result
      ▷ encode_result_id subject
      ▷ encode_result_id object
  encode_action (merge_relation_origin source onto subject object) h =
      h
      ▷ u16 8
      ▷ encode_relation source
      ▷ encode_result_id onto
      ▷ encode_result_id subject
      ▷ encode_result_id object

  unfoldable pub origins_only : ℕ → ResultObjectId → BTreeSet OriginContribution → List ResultToken
  unfolding new u16 encode_result_id encode_origin finish
  origins_only kind result origins =
      map
        (λ origin. record {
          kind = kind;
          value =
              new "openmemory/result-origin/v1"
              ▷ u16 kind
              ▷ encode_result_id result
              ▷ encode_origin origin
              ▷ finish;
        })
        origins

  unfoldable pub projection_and_origins :
      ℕ → ℕ → ResultObjectId → Hash → BTreeSet OriginContribution → List ResultToken
  projection_and_origins projection_kind origin_kind result projection origins =
      record { kind = projection_kind; value = projection }
      ∷ origins_only origin_kind result origins

  unfoldable pub entity_projection : ResultObjectId → EntityRecord → Hash
  unfolding new encode_result_id encode_entity_fields finish
  entity_projection result e =
      new "openmemory/result-entity-projection/v1"
      ▷ encode_result_id result
      ▷ encode_entity_fields e
      ▷ finish

  unfoldable pub observation_projection : ResultObjectId → ResultObjectId → ObservationRecord → Hash
  unfolding new encode_result_id id u16 text finish
  observation_projection result result_entity o =
      new "openmemory/result-observation-projection/v1"
      ▷ encode_result_id result
      ▷ encode_result_id result_entity
      ▷ id o.revision
      ▷ u16 (lifecycle_tag o.lifecycle)
      ▷ text o.content
      ▷ finish

  unfoldable pub relation_projection :
      ResultObjectId → ResultObjectId → ResultObjectId → RelationRecord → Hash
  unfolding new encode_result_id id u16 text finish
  relation_projection result subject object r =
      new "openmemory/result-relation-projection/v1"
      ▷ encode_result_id result
      ▷ encode_result_id subject
      ▷ text r.predicate
      ▷ encode_result_id object
      ▷ id r.revision
      ▷ u16 (lifecycle_tag r.lifecycle)
      ▷ finish

  unfoldable pub result_tokens : MergeAction → List ResultToken
  unfolding projection_and_origins
  result_tokens (keep_target_entity target) =
      let result = ResultObjectId.target target.address.logical_id in
      projection_and_origins 1 2 result (entity_projection result target) target.origins
  result_tokens (apply_entity_disposition source (coalesce _ target _)) =
      origins_only 2 (ResultObjectId.target target.logical_id) source.origins
  result_tokens (apply_entity_disposition source (add_distinct _ result_id _ _)) =
      let result = ResultObjectId.qualified result_id in
      projection_and_origins 1 2 result (entity_projection result source) source.origins
  result_tokens (keep_target_observation target result_entity) =
      let result = ResultObjectId.target target.address.logical_id in
      projection_and_origins 3 4 result (observation_projection result result_entity target)
        target.origins
  result_tokens (add_observation source result_id result_entity) =
      let result = ResultObjectId.qualified result_id in
      projection_and_origins 3 4 result (observation_projection result result_entity source)
        source.origins
  result_tokens (merge_observation_origin source onto _) = origins_only 4 onto source.origins
  result_tokens (keep_target_relation target subject object) =
      let result = ResultObjectId.target target.address.logical_id in
      projection_and_origins 5 6 result (relation_projection result subject object target)
        target.origins
  result_tokens (add_relation source result_id subject object) =
      let result = ResultObjectId.qualified result_id in
      projection_and_origins 5 6 result (relation_projection result subject object source)
        source.origins
  result_tokens (merge_relation_origin source onto _ _) = origins_only 6 onto source.origins

  unfoldable pub hash_result_tokens : List ResultToken → Hash
  unfolding new usize each encode_token finish
  hash_result_tokens tokens =
      new "openmemory/predicted-result/v1"
      ▷ usize (length tokens)
      ▷ each encode_token tokens
      ▷ finish

  unfoldable pub hash_plan : PlanPrelude → Hash → ActionCounts → MergeAccounting → Hash → Hash
  unfolding new u16 id hash encode_space_version u64 encode_counts encode_accounting finish
  hash_plan p action_stream_hash counts accounting predicted =
      new "openmemory/merge-plan/v1"
      ▷ u16 p.version
      ▷ id p.source_space
      ▷ id p.target_space
      ▷ hash p.source_snapshot_hash
      ▷ hash p.target_snapshot_hash
      ▷ encode_space_version p.expected_target_version
      ▷ u16 p.policy_version
      ▷ u64 p.identity_policy_generation
      ▷ hash action_stream_hash
      ▷ encode_counts counts
      ▷ encode_accounting accounting
      ▷ hash predicted
      ▷ finish

-- `count_action` of the verification
unfoldable pub count_action : ActionCounts → MergeAction → ActionCounts
count_action c (keep_target_entity _) = record c { target_entities = c.target_entities + 1 }
count_action c (apply_entity_disposition _ (coalesce _ _ _)) = record c {
  source_entities = c.source_entities + 1;
  coalesced_entities = c.coalesced_entities + 1;
}
count_action c (apply_entity_disposition _ (add_distinct _ _ _ _)) = record c {
  source_entities = c.source_entities + 1;
  added_entities = c.added_entities + 1;
}
count_action c (keep_target_observation _ _) = record c {
  target_observations = c.target_observations + 1;
}
count_action c (add_observation _ _ _) = record c {
  source_observations = c.source_observations + 1;
  added_observations = c.added_observations + 1;
}
count_action c (merge_observation_origin _ _ _) = record c {
  source_observations = c.source_observations + 1;
  merged_observations = c.merged_observations + 1;
}
count_action c (keep_target_relation _ _ _) = record c { target_relations = c.target_relations + 1 }
count_action c (add_relation _ _ _ _) = record c {
  source_relations = c.source_relations + 1;
  added_relations = c.added_relations + 1;
}
count_action c (merge_relation_origin _ _ _ _) = record c {
  source_relations = c.source_relations + 1;
  merged_relations = c.merged_relations + 1;
}
