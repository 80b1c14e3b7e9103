-- ===== src/Merge/Receipt/Sound.antt =====
-- What a receipt vouches for, and what a page of candidates leaves out.
use openmemory.Prelude.{
  ℕ, zero, suc, ◌≡◌, refl, sym, ap, ◌∙◌, subst, ◌≤◌, Bool, true, false, not, ◌&&◌, ◌||◌, List, [],
  ◌∷◌, length, length-take-le, take, ok, ltb, eqb, eqb_refl, arith,
}
use openmemory.Prelude.Results.{fail_if-ok}
use openmemory.Prelude.Order.{◌==◌, ==→≡, ≡→==, list_ord, nat_ord}
use openmemory.Text.{Uuid, Externals}
use openmemory.Merge.Model.{SnapshotId}
use openmemory.Merge.Model.Records.{EntityRecord}
use openmemory.Merge.Evidence.{IdentityPacket, revision_ref_ord}
use openmemory.Merge.Discovery.{
  CandidateIndex, DiscoveryReceipt, IdentityCandidate, max_candidate_cap,
}
use openmemory.Merge.Discovery.Search.{all_candidates, discover}
use openmemory.Merge.Receipt.{
  SpaceRole, can_review, IdentityDecision, is_same, is_contradiction, human,
  IdentityResolutionReceipt, matches_candidate, matches_discovery, new_keep_distinct, reviewed,
  build_resolution, same_bool, hashes_of,
}

same_bool_refl : (b : Bool) → same_bool b b ≡ true
same_bool_refl true = refl
same_bool_refl false = refl

same_bool-≡ : (a b : Bool) → same_bool a b ≡ true → a ≡ b
same_bool-≡ true b h = sym h
same_bool-≡ false true h = absurd (ground arith)
same_bool-≡ false false h = refl

and_true : (a b : Bool) → (a && b) ≡ true → (a ≡ true) × (b ≡ true)
and_true true b h = (refl, h)
and_true false b h = absurd (ground arith)

take-all {ℓ} : {A : Type ℓ} (n : ℕ) (xs : List A) → ltb n (length xs) ≡ false → take n xs ≡ xs
take-all zero [] h = refl
take-all zero (x ∷ xs) h = absurd (ground arith)
take-all (suc n) [] h = refl
take-all (suc n) (x ∷ xs) h = ap (λ ys. x ∷ ys) (take-all n xs (ground arith))

module _ ⦃ext : Externals⦄ where
  -- A reviewed receipt exists only for a role that may review, and says `same` only where the
  -- packet proves no difference and no conflict. It carries the two sides, the hash and the
  -- policy generation of the packet, so it matches a candidate exactly if the sides are equal.
  pub reviewed_sound :
      (packet : IdentityPacket) (decision : IdentityDecision) (event : Uuid) (role : SpaceRole)
      (r : IdentityResolutionReceipt)
      → reviewed packet decision event role ≡ ok r
      → (can_review role ≡ true)
        × (is_same r.decision ≡ true → is_contradiction packet.resolution ≡ false)
        × (r.decision ≡ decision)
        × (r.packet_hash ≡ packet.hash)
        × (r.policy_generation ≡ packet.policy_generation)
        × ((c : IdentityCandidate)
            → matches_candidate r c ≡ (packet.left == c.target && packet.right == c.source))
  unfolding reviewed build_resolution matches_candidate
  reviewed_sound packet decision event role r e =
      let (may, e1) = fail_if-ok (not (can_review role)) _ _ e in
      let (allowed, e2) =
        fail_if-ok (is_same decision && is_contradiction packet.resolution) _ _ e1 in
      let q : build_resolution packet decision (human event role) ≡ r = ground arith in
      subst
        (λ (x : IdentityResolutionReceipt).
          (can_review role ≡ true)
          × (is_same x.decision ≡ true → is_contradiction packet.resolution ≡ false)
          × (x.decision ≡ decision)
          × (x.packet_hash ≡ packet.hash)
          × (x.policy_generation ≡ packet.policy_generation)
          × ((c : IdentityCandidate)
              → matches_candidate x c ≡ (packet.left == c.target && packet.right == c.source)))
        q (ground arith, (λ h. ground arith), refl, refl, refl, λ c. refl)

  -- What a keep-distinct receipt of the discovery `d` is tied to, in the discovery `e`.
  abbrev pub SameDiscovery : DiscoveryReceipt → DiscoveryReceipt → Type 0
  SameDiscovery d e =
      (d.source ≡ e.source)
      × (d.hash ≡ e.hash)
      × (d.policy_generation ≡ e.policy_generation)
      × (d.truncated ≡ e.truncated)
      × (hashes_of d.candidates ≡ hashes_of e.candidates)

  matches_discovery_eq :
      (d e : DiscoveryReceipt)
      → matches_discovery (new_keep_distinct d) e ≡ (
          d.source == e.source
          && d.hash == e.hash
          && eqb d.policy_generation e.policy_generation
          && same_bool d.truncated e.truncated
          && hashes_of d.candidates == hashes_of e.candidates)
  unfolding matches_discovery new_keep_distinct
  matches_discovery_eq d e = refl

  -- The keep-distinct receipt of a discovery matches a discovery exactly if the two agree on the source,
  -- the hash, the policy generation, the truncation mark and the hashes of the candidates in order.
  pub new_keep_distinct-matches_discovery :
      (d e : DiscoveryReceipt)
      → (matches_discovery (new_keep_distinct d) e ≡ true → SameDiscovery d e)
        × (SameDiscovery d e → matches_discovery (new_keep_distinct d) e ≡ true)
  new_keep_distinct-matches_discovery d e = (
    (λ h.
        let (h1, candidates) =
          and_true _ (hashes_of d.candidates == hashes_of e.candidates)
            (sym (matches_discovery_eq d e) ∙ h) in
        let (h2, truncated) = and_true _ (same_bool d.truncated e.truncated) h1 in
        let (h3, policy) = and_true _ (eqb d.policy_generation e.policy_generation) h2 in
        let (source, hash) = and_true (d.source == e.source) (d.hash == e.hash) h3 in
        (
          ==→≡ d.source e.source source,
          ==→≡ d.hash e.hash hash,
          ground arith,
          same_bool-≡ d.truncated e.truncated truncated,
          ==→≡ (hashes_of d.candidates) (hashes_of e.candidates) candidates,
        )),
    (λ (source, hash, policy, truncated, candidates).
        rw
          (
            matches_discovery_eq d e,
            ≡→== d.source e.source source,
            ≡→== d.hash e.hash hash,
            policy,
            eqb_refl e.policy_generation,
            truncated,
            same_bool_refl e.truncated,
            ≡→== (hashes_of d.candidates) (hashes_of e.candidates) candidates,
          )
          refl),
  )

  -- A discovery keeps at most `cap` candidates, which is at most 128. Its page is the beginning of
  -- the row of all candidates; it is marked truncated exactly if something was cut off, and
  -- otherwise it is the whole row.
  pub discover_bounded :
      (index : CandidateIndex) (source : EntityRecord) (snapshot : SnapshotId) (cap : ℕ)
      (d : DiscoveryReceipt)
      → discover index source snapshot cap ≡ ok d
      → (length d.candidates ≤ cap)
        × (cap ≤ max_candidate_cap)
        × (d.candidates ≡ take cap (all_candidates index source snapshot))
        × (d.truncated ≡ ltb cap (length (all_candidates index source snapshot)))
        × (d.truncated ≡ false → d.candidates ≡ all_candidates index source snapshot)
  unfolding discover
  discover_bounded index source snapshot cap d e =
      let (small, e1) = fail_if-ok (eqb cap 0 || ltb max_candidate_cap cap) _ _ e in
      let bound = length-take-le cap (all_candidates index source snapshot) in
      let page : d.candidates ≡ take cap (all_candidates index source snapshot) = ground arith in
      let cut : d.truncated ≡ ltb cap (length (all_candidates index source snapshot)) =
        ground arith in
      (
        rw page bound,
        ground arith,
        page,
        cut,
        λ h. page ∙ take-all cap (all_candidates index source snapshot) (sym cut ∙ h),
      )
