-- ===== src/Merge/Discovery.antt =====
-- `discovery.rs`: the candidate index of a target snapshot and the discovery of one source entity.
pub mod Search
use Prim.Native.Nat.{Ordering}
use openmemory.Prelude.{
  ℕ, ◌≡◌, Bool, false, ◌&&◌, ◌||◌, Option, none, some, List, [], ◌∷◌, length, take, filter_map,
  Result, ok, err, MergeErrorCode, fail_if, ltb, eqb, if◌then◌else◌, arith,
}
use openmemory.Prelude.Results.{◌>>◌}
use openmemory.Prelude.Order.{Ord, ord_by, nat_ord, pair_ord, list_ord, option_ord, then_cmp}
use openmemory.Prelude.Maps.{BTreeMap, BTreeSet, insert, insert_value, contains_key, get}
use openmemory.Prelude.Sorting.{sort_by}
use openmemory.Text.{Text, Externals}
use openmemory.Merge.Canonical.{
  Hash, ◌▷◌, new, u16, u64, usize, u64_of_usize, bool, hash, each, finish,
}
use openmemory.Merge.Model.{
  EntityAddress, address_ord, SnapshotId, AssertionTrust, IdentifierAssertion,
}
use openmemory.Merge.Model.Records.{EntityRecord}
use openmemory.Merge.Evidence.{IdentityPolicy, EntityRevisionRef, resolver_generation}
use openmemory.Merge.Evidence.Analysis.{
  encode_revision_ref, normalize_label, revision_ref, for_each,
}

abbrev pub max_candidate_cap : ℕ
max_candidate_cap = 128

pub data CandidateSignal : Type 0 where
  lineage verified_identifier exact_label alias : CandidateSignal

abbrev pub signal_tag : CandidateSignal → ℕ
signal_tag lineage = 0
signal_tag verified_identifier = 1
signal_tag exact_label = 2
signal_tag alias = 3

pub signal_tag_injective : (a b : CandidateSignal) → signal_tag a ≡ signal_tag b → a ≡ b
signal_tag_injective a b h = ground arith

instance abbrev pub signal_ord : Ord CandidateSignal
signal_ord = ord_by signal_tag signal_tag_injective nat_ord

pub record IdentityCandidate : Type 0 where
  pub target : EntityRevisionRef
  pub source : EntityRevisionRef
  pub signals : BTreeSet CandidateSignal
  pub hash : Hash

-- `IdentityCandidate::priority`
unfoldable pub priority : IdentityCandidate → CandidateSignal
priority c = elim c.signals [ [] ↦ alias | signal ∷ rest ↦ signal ]

pub record DiscoveryReceipt : Type 0 where
  pub discovery_generation : ℕ
  pub policy_generation : ℕ
  pub source : EntityRevisionRef
  pub candidates : List IdentityCandidate
  pub total_lower_bound : ℕ
  pub cap : ℕ
  pub truncated : Bool
  pub hash : Hash

pub record CandidateIndex : Type 0 where
  pub discovery_generation : ℕ
  pub target_snapshot : SnapshotId
  pub policy : IdentityPolicy
  pub entities : BTreeMap EntityAddress EntityRecord
  pub lineage : BTreeMap Text (BTreeSet EntityAddress)
  pub verified : BTreeMap (Text × Text) (BTreeSet EntityAddress)
  pub labels : BTreeMap (Text × Option Text) (BTreeSet EntityAddress)
  pub aliases : BTreeMap (Text × Option Text) (BTreeSet EntityAddress)

unfoldable pub is_current_verified : AssertionTrust → SnapshotId → Option ℕ → Bool
is_current_verified AssertionTrust.claimed snapshot required_generation = false
is_current_verified (AssertionTrust.source_verified s v g) snapshot none = false
is_current_verified (AssertionTrust.source_verified source_snapshot v generation) snapshot
      (some required) =
    eqb source_snapshot snapshot && eqb generation required

abbrev pub or_default {ℓ} : {K : Type ℓ} → Option (BTreeSet K) → BTreeSet K
or_default none = []
or_default (some s) = s

-- `map.entry(key).or_default().insert(value)`
unfoldable pub insert_at {ℓ κ} :
    {K : Type ℓ} {V : Type κ} ⦃o : Ord K⦄ ⦃p : Ord V⦄
    → K
    → V
    → BTreeMap K (BTreeSet V)
    → BTreeMap K (BTreeSet V)
insert_at key value m = insert_value key (insert value (or_default (get key m))) m

-- The matches of one lookup, each with the signal.
unfoldable pub add_matches :
    Option (BTreeSet EntityAddress)
    → CandidateSignal
    → BTreeMap EntityAddress (BTreeSet CandidateSignal)
    → BTreeMap EntityAddress (BTreeSet CandidateSignal)
unfolding insert_at for_each
add_matches none signal output = output
add_matches (some matches) signal output =
    for_each (λ address. insert_at address signal) matches output

unfoldable pub index_lineage : EntityAddress → Option Text → CandidateIndex → CandidateIndex
unfolding insert_at
index_lineage address none index = index
index_lineage address (some l) index = record index { lineage = insert_at l address index.lineage }

unfoldable pub index_identifier :
    EntityAddress → IdentifierAssertion → CandidateIndex → CandidateIndex
unfolding insert_at is_current_verified resolver_generation
index_identifier address i index =
    if is_current_verified i.trust index.target_snapshot
      (resolver_generation index.policy i.namespace)
    then record index { verified = insert_at (i.namespace, i.value) address index.verified }
    else index
