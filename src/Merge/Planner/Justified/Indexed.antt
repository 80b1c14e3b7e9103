-- ===== src/Merge/Planner/Justified/Indexed.antt =====
-- The indices that `prepare_dispositions` builds hold receipts of the run, under the policy's
-- generation.
use openmemory.Prelude.{◌≡◌, subst, not, ◌||◌, List, [], ◌∷◌, eqb, ok, All, arith}
use mathlib.Core.List.{Mem, mem-cons_self, mem-cons_of_mem}
use openmemory.Prelude.Results.{fail_if-ok}
use openmemory.Prelude.Order.{pair_ord}
use openmemory.Prelude.Maps.{BTreeMap, contains_key, All-insert_value}
use openmemory.Merge.Model.{EntityAddress, address_ord}
use openmemory.Merge.Evidence.{revision_ref_ord}
use openmemory.Merge.Discovery.{DiscoveryReceipt}
use openmemory.Merge.Receipt.{IdentityResolutionReceipt, KeepDistinctReceipt}
use openmemory.Merge.Planner.{MergePolicy}
use openmemory.Merge.Planner.Dispositions.{
  PairKey, resolution_pair, index_discoveries, index_resolutions, index_keep_distinct,
}

module _ (policy : MergePolicy) where
  -- What a loop over receipts stores under the policy's generation.
  pub index_resolutions-All :
      (P : PairKey × IdentityResolutionReceipt → Type 0) (rs : List IdentityResolutionReceipt)
      (m m' : BTreeMap PairKey IdentityResolutionReceipt)
      → ((r : IdentityResolutionReceipt)
          → Mem r rs
          → r.policy_generation ≡ policy.identity_policy_generation
          → P (resolution_pair r, r))
      → All P m
      → index_resolutions policy rs m ≡ ok m'
      → All P m'
  unfolding index_resolutions
  index_resolutions-All P [] m m' h a e = subst (All P) (ground arith) a
  index_resolutions-All P (r ∷ rs) m m' h a e =
      let (passed, rest) =
        fail_if-ok
          (not (eqb r.policy_generation policy.identity_policy_generation)
            || contains_key (resolution_pair r) m)
          _ _ e in
      let current : r.policy_generation ≡ policy.identity_policy_generation = ground arith in
      index_resolutions-All P rs _ m' (λ q k. h q (mem-cons_of_mem _ k))
        (All-insert_value P (resolution_pair r) r m (h r mem-cons_self current) a) rest

  pub index_keep_distinct-All :
      (P : EntityAddress × KeepDistinctReceipt → Type 0) (ks : List KeepDistinctReceipt)
      (m m' : BTreeMap EntityAddress KeepDistinctReceipt)
      → ((k : KeepDistinctReceipt)
          → Mem k ks
          → k.policy_generation ≡ policy.identity_policy_generation
          → P (k.source.address, k))
      → All P m
      → index_keep_distinct policy ks m ≡ ok m'
      → All P m'
  unfolding index_keep_distinct
  index_keep_distinct-All P [] m m' h a e = subst (All P) (ground arith) a
  index_keep_distinct-All P (k ∷ ks) m m' h a e =
      let (passed, rest) =
        fail_if-ok
          (not (eqb k.policy_generation policy.identity_policy_generation)
            || contains_key (k.source.address) m)
          _ _ e in
      let current : k.policy_generation ≡ policy.identity_policy_generation = ground arith in
      index_keep_distinct-All P ks _ m' (λ q j. h q (mem-cons_of_mem _ j))
        (All-insert_value P k.source.address k m (h k mem-cons_self current) a) rest

  pub index_discoveries-All :
      (P : EntityAddress × DiscoveryReceipt → Type 0) (ds : List DiscoveryReceipt)
      (m m' : BTreeMap EntityAddress DiscoveryReceipt)
      → ((d : DiscoveryReceipt)
          → Mem d ds
          → d.policy_generation ≡ policy.identity_policy_generation
          → P (d.source.address, d))
      → All P m
      → index_discoveries policy ds m ≡ ok m'
      → All P m'
  unfolding index_discoveries
  index_discoveries-All P [] m m' h a e = subst (All P) (ground arith) a
  index_discoveries-All P (d ∷ ds) m m' h a e =
      let (passed, e') =
        fail_if-ok (not (eqb d.policy_generation policy.identity_policy_generation)) _ _ e in
      let (_, rest) = fail_if-ok (contains_key d.source.address m) _ _ e' in
      let current : d.policy_generation ≡ policy.identity_policy_generation = ground arith in
      index_discoveries-All P ds _ m' (λ q j. h q (mem-cons_of_mem _ j))
        (All-insert_value P d.source.address d m (h d mem-cons_self current) a) rest
