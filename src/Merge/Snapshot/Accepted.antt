-- ===== src/Merge/Snapshot/Accepted.antt =====
-- What the checks of a `SnapshotVerifier` establish of a snapshot, of all that `MemorySnapshot::new` does:
-- order, counts and hash. The verifier does not test for dangling endpoints, nor for the limit on
-- the number of records.
use openmemory.Prelude.{
  ℕ, ◌+◌, ◌<◌, ◌^◌, ◌≡◌, refl, sym, ap, ◌∙◌, subst, Bool, true, false, not, ◌||◌, none, some, List,
  [], ◌∷◌, length, map, Result, ok, eqb, arith,
}
use openmemory.Prelude.Results.{◌>>=◌, >>=-ok, fail_if-ok, require-ok}
use openmemory.Prelude.Order.{◌==◌, ==→≡, list_ord, nat_ord}
use openmemory.Text.{Externals}
use openmemory.Merge.Canonical.{CanonicalHasher, u64, usize, u64_of_usize-small, each, finish}
use openmemory.Merge.Model.{ObjectAddress}
use openmemory.Merge.Model.Records.{EntityRecord, ObservationRecord, RelationRecord, SnapshotHeader}
use openmemory.Merge.Model.Encode.{encode_entity, encode_observation, encode_relation}
use openmemory.Merge.Planner.Verifier.{
  SnapshotVerifier, not_after, ensure_record, hash_mut, header_hash, new_verifier, verify_entity,
  verify_observation, verify_relation, end_entities, end_observations, finish_verifier,
}
use openmemory.Merge.Planner.Stream.{SnapshotSource}
use openmemory.Merge.Snapshot.{validate_unique_addresses, snapshot_hasher, compute_snapshot_hash}

-- One check for each record of a stream.
unfoldable pub check_all :
    {A : Type 0}
    → (A → SnapshotVerifier → Result SnapshotVerifier)
    → List A
    → SnapshotVerifier
    → Result SnapshotVerifier
check_all check [] v = ok v
check_all check (x ∷ xs) v = check x v >>= check_all check xs

module _ ⦃ext : Externals⦄ where
  -- The calls of a verifier over a whole snapshot.
  unfoldable pub verify_snapshot : SnapshotSource → Result SnapshotVerifier
  verify_snapshot s = do
    v0 ← new_verifier s.header
    v1 ← check_all verify_entity s.entities.records v0
    v2 ← end_entities v1
    v3 ← check_all verify_observation s.observations.records v2
    v4 ← end_observations v3
    v5 ← check_all verify_relation s.relations.records v4
    finish_verifier v5

-- One record that was accepted, where `address` and `encode` are those of its kind, `number`
-- counts its kind and `others` are the counts of the other kinds.
module _ {A : Type 0} (address : A → ObjectAddress) (encode : A → CanonicalHasher → CanonicalHasher)
    (number : SnapshotVerifier → ℕ) (others : SnapshotVerifier → ℕ × ℕ) where
  pub record Accepted (xs : List A) (v v' : SnapshotVerifier) : Type 0 where
    pub in_order : validate_unique_addresses v.previous (map address xs) v.expected.space_id ≡ ok tt
    pub expected : v'.expected ≡ v.expected
    pub hashed : (h : CanonicalHasher) → v.hash ≡ some h → v'.hash ≡ some (each encode xs h)
    pub counted : number v' ≡ number v + length xs
    pub others_kept : others v' ≡ others v

  pub record AcceptedOne (x : A) (v v' : SnapshotVerifier) : Type 0 where
    pub in_space : eqb (address x).space v.expected.space_id ≡ true
    pub after : not_after v.previous (address x) ≡ false
    pub previous : v'.previous ≡ some (address x)
    pub expected : v'.expected ≡ v.expected
    pub hashed : (h : CanonicalHasher) → v.hash ≡ some h → v'.hash ≡ some (encode x h)
    pub counted : number v' ≡ number v + 1
    pub others_kept : others v' ≡ others v

  module _ (check : A → SnapshotVerifier → Result SnapshotVerifier)
      (one : (x : A) (v v' : SnapshotVerifier) → check x v ≡ ok v' → AcceptedOne x v v') where
    check_all-Accepted :
        (xs : List A) (v v' : SnapshotVerifier) → check_all check xs v ≡ ok v' → Accepted xs v v'
    unfolding check_all validate_unique_addresses each
    check_all-Accepted [] v v' e =
        let q : v ≡ v' = ground arith in
        subst (Accepted [] v) q (record {
          in_order = refl;
          expected = refl;
          hashed = λ h p. p;
          counted = omega arith;
          others_kept = refl;
        })
    check_all-Accepted (x ∷ xs) v v' e =
        let (w, e1, e2) = >>=-ok (check x v) (λ u. check_all check xs u) e in
        let a = one x v w e1 in
        let rest = check_all-Accepted xs w v' e2 in
        record {
          in_order =
              rw (a.in_space, a.after)
                (subst
                  (λ s. validate_unique_addresses (some (address x)) (map address xs) s ≡ ok tt)
                  (ap (λ u. u.space_id) a.expected) (rw (a.previous) at rest.in_order));
          expected = rest.expected ∙ a.expected;
          hashed = λ h p. rest.hashed _ (a.hashed h p);
          counted = omega (arith, a.counted, rest.counted);
          others_kept = rest.others_kept ∙ a.others_kept;
        }

ensure_record-ok :
    (stage : ℕ) (a : ObjectAddress) (v w : SnapshotVerifier)
    → ensure_record stage a v ≡ ok w
    → (eqb a.space v.expected.space_id ≡ true)
      × (not_after v.previous a ≡ false)
      × (record v { previous = some a } ≡ w)
unfolding ensure_record
ensure_record-ok stage a v w e =
    let (_, e1) = fail_if-ok (not (eqb v.stage stage)) _ _ e in
    let (space, e2) = fail_if-ok (not (eqb a.space v.expected.space_id)) _ _ e1 in
    let (order, e3) = fail_if-ok (not_after v.previous a) _ _ e2 in
    (ground arith, order, ground arith)

module _ ⦃ext : Externals⦄ where
  verify_entity-AcceptedOne :
      (x : EntityRecord) (v v' : SnapshotVerifier)
      → verify_entity x v ≡ ok v'
      → AcceptedOne
          (λ (r : EntityRecord). r.address)
          encode_entity
          (λ u. u.entities)
          (λ u. (u.observations, u.relations))
          x
          v
          v'
  unfolding verify_entity hash_mut
  verify_entity-AcceptedOne x v v' e =
      let (w, e1, e2) = >>=-ok (ensure_record 1 x.address v) _ e in
      let (h, found, e3) = require-ok w.hash _ _ e2 in
      let (space, order, w_eq) = ensure_record-ok 1 x.address v w e1 in
      record {
        in_space = space;
        after = order;
        previous = ground arith;
        expected = ground arith;
        hashed = λ k p. ground arith;
        counted = ground arith;
        others_kept = ground arith;
      }

  verify_observation-AcceptedOne :
      (x : ObservationRecord) (v v' : SnapshotVerifier)
      → verify_observation x v ≡ ok v'
      → AcceptedOne
          (λ (r : ObservationRecord). r.address)
          encode_observation
          (λ u. u.observations)
          (λ u. (u.entities, u.relations))
          x
          v
          v'
  unfolding verify_observation hash_mut
  verify_observation-AcceptedOne x v v' e =
      let (w, e1, e2) = >>=-ok (ensure_record 2 x.address v) _ e in
      let (h, found, e3) = require-ok w.hash _ _ e2 in
      let (space, order, w_eq) = ensure_record-ok 2 x.address v w e1 in
      record {
        in_space = space;
        after = order;
        previous = ground arith;
        expected = ground arith;
        hashed = λ k p. ground arith;
        counted = ground arith;
        others_kept = ground arith;
      }

  verify_relation-AcceptedOne :
      (x : RelationRecord) (v v' : SnapshotVerifier)
      → verify_relation x v ≡ ok v'
      → AcceptedOne
          (λ (r : RelationRecord). r.address)
          encode_relation
          (λ u. u.relations)
          (λ u. (u.entities, u.observations))
          x
          v
          v'
  unfolding verify_relation hash_mut
  verify_relation-AcceptedOne x v v' e =
      let (w, e1, e2) = >>=-ok (ensure_record 3 x.address v) _ e in
      let (h, found, e3) = require-ok w.hash _ _ e2 in
      let (space, order, w_eq) = ensure_record-ok 3 x.address v w e1 in
      record {
        in_space = space;
        after = order;
        previous = ground arith;
        expected = ground arith;
        hashed = λ k p. ground arith;
        counted = ground arith;
        others_kept = ground arith;
      }

true_of_not : (b : Bool) → not b ≡ false → b ≡ true
true_of_not true h = refl
true_of_not false h = sym h

new_verifier-ok :
    ⦃ext : Externals⦄ (header : SnapshotHeader) (v : SnapshotVerifier)
    → new_verifier header ≡ ok v
    → (header.format_version ≡ 1)
      × (record {
        expected = header;
        hash = some (header_hash header);
        previous = none;
        entities = 0;
        observations = 0;
        relations = 0;
        stage = 1;
      }
          ≡ v)
unfolding new_verifier
new_verifier-ok header v e =
    let (format, e1) = fail_if-ok (not (eqb header.format_version 1)) _ _ e in
    (ground arith, ground arith)

end_entities-ok :
    (v w : SnapshotVerifier) (h : CanonicalHasher)
    → v.hash ≡ some h
    → end_entities v ≡ ok w
    → (v.entities ≡ v.expected.entity_count)
      × (record v { hash = some (u64 v.expected.observation_count h); previous = none; stage = 2 }
          ≡ w)
unfolding end_entities hash_mut
end_entities-ok v w h found e =
    let (counted, e1) =
      fail_if-ok (not (eqb v.stage 1) || not (eqb v.entities v.expected.entity_count)) _ _ e in
    let (k, k_eq, e2) = require-ok v.hash _ _ e1 in
    let same : k ≡ h = ground arith in (ground arith, ground arith)

end_observations-ok :
    (v w : SnapshotVerifier) (h : CanonicalHasher)
    → v.hash ≡ some h
    → end_observations v ≡ ok w
    → (v.observations ≡ v.expected.observation_count)
      × (record v { hash = some (u64 v.expected.relation_count h); previous = none; stage = 3 } ≡ w)
unfolding end_observations hash_mut
end_observations-ok v w h found e =
    let (counted, e1) =
      fail_if-ok (not (eqb v.stage 2) || not (eqb v.observations v.expected.observation_count)) _ _
        e in
    let (k, k_eq, e2) = require-ok v.hash _ _ e1 in
    let same : k ≡ h = ground arith in (ground arith, ground arith)

finish_verifier-ok :
    ⦃ext : Externals⦄ (v w : SnapshotVerifier) (h : CanonicalHasher)
    → v.hash ≡ some h
    → finish_verifier v ≡ ok w
    → (v.relations ≡ v.expected.relation_count) × (finish h ≡ v.expected.hash)
unfolding finish_verifier hash_mut
finish_verifier-ok v w h found e =
    let (counted, e1) =
      fail_if-ok (not (eqb v.stage 3) || not (eqb v.relations v.expected.relation_count)) _ _ e in
    let (k, k_eq, e2) = require-ok v.hash _ _ e1 in
    let (agrees, _) = fail_if-ok (not (finish k == v.expected.hash)) _ _ e2 in
    let same : k ≡ h = ground arith in
    let equal : (finish k == v.expected.hash) ≡ true = true_of_not _ agrees in
    (
      ground arith,
      subst (λ x. finish x ≡ v.expected.hash) same (==→≡ (finish k) v.expected.hash equal),
    )

module _ ⦃ext : Externals⦄ (s : SnapshotSource) where
  -- A part of what `MemorySnapshot::new` establishes: records of the space in strictly ascending order, their
  -- numbers and their hash in the header.
  pub record IsCanonical : Type 0 where
    pub format : s.header.format_version ≡ 1
    pub entities_in_order :
        validate_unique_addresses none
          (map (λ (r : EntityRecord). r.address) s.entities.records)
          s.header.space_id
        ≡ ok tt
    pub observations_in_order :
        validate_unique_addresses none
          (map (λ (r : ObservationRecord). r.address) s.observations.records)
          s.header.space_id
        ≡ ok tt
    pub relations_in_order :
        validate_unique_addresses none
          (map (λ (r : RelationRecord). r.address) s.relations.records)
          s.header.space_id
        ≡ ok tt
    pub entity_count : length s.entities.records ≡ s.header.entity_count
    pub observation_count : length s.observations.records ≡ s.header.observation_count
    pub relation_count : length s.relations.records ≡ s.header.relation_count
    pub hash :
        (compute_snapshot_hash s.header.snapshot_id s.header.space_id s.header.space_version
          s.entities.records s.observations.records s.relations.records).0
        ≡ s.header.hash

  -- A snapshot that the verifier accepts, and whose streams are shorter than 2^64, is canonical:
  -- its records are those of its space in strictly ascending order of address, as many as the
  -- header says, and its hash is the one that `compute_snapshot_hash` takes of them.
  pub verify_snapshot-IsCanonical :
      (v : SnapshotVerifier)
      → verify_snapshot s ≡ ok v
      → length s.entities.records < 2 ^ 64
      → length s.observations.records < 2 ^ 64
      → length s.relations.records < 2 ^ 64
      → IsCanonical
  unfolding verify_snapshot compute_snapshot_hash snapshot_hasher header_hash usize
  verify_snapshot-IsCanonical v e le lo lr =
      let (v0, e0, r0) = >>=-ok (new_verifier s.header) _ e in
      let (format, q0) = new_verifier-ok s.header v0 e0 in
      let (v1, e1, r1) = >>=-ok (check_all verify_entity s.entities.records v0) _ r0 in
      let a1 =
        check_all-Accepted _ _ _ _ verify_entity verify_entity-AcceptedOne s.entities.records _ v1
          (rw (← q0) at e1) in
      let (v2, e2, r2) = >>=-ok (end_entities v1) _ r1 in
      let (c1, q1) = end_entities-ok v1 v2 _ (a1.hashed _ refl) e2 in
      let (v3, e3, r3) = >>=-ok (check_all verify_observation s.observations.records v2) _ r2 in
      let a2 =
        check_all-Accepted _ _ _ _ verify_observation verify_observation-AcceptedOne
          s.observations.records _ v3 (rw (← q1) at e3) in
      let (v4, e4, r4) = >>=-ok (end_observations v3) _ r3 in
      let (c2, q2) = end_observations-ok v3 v4 _ (a2.hashed _ refl) e4 in
      let (v5, e5, r5) = >>=-ok (check_all verify_relation s.relations.records v4) _ r4 in
      let a3 =
        check_all-Accepted _ _ _ _ verify_relation verify_relation-AcceptedOne s.relations.records _
          v5 (rw (← q2) at e5) in
      let (c3, hashed) = finish_verifier-ok v5 v _ (a3.hashed _ refl) r5 in
      let x1 : v1.expected ≡ s.header = a1.expected in
      let x3 : v3.expected ≡ s.header = a2.expected ∙ x1 in
      let x5 : v5.expected ≡ s.header = a3.expected ∙ x3 in
      let n1 : length s.entities.records ≡ s.header.entity_count =
        omega (arith, a1.counted, c1, ap (λ h. h.entity_count) x1) in
      let n2 : length s.observations.records ≡ s.header.observation_count =
        omega
          (arith, a2.counted, c2, ap (λ h. h.observation_count) x3, ap (λ n. n.0) a1.others_kept) in
      let n3 : length s.relations.records ≡ s.header.relation_count = omega (
        arith,
        a3.counted,
        c3,
        ap (λ h. h.relation_count) x5,
        ap (λ n. n.1) a1.others_kept,
        ap (λ n. n.1) a2.others_kept,
      ) in
      record {
        format = format;
        entities_in_order = a1.in_order;
        observations_in_order = rw x1 at a2.in_order;
        relations_in_order = rw x3 at a3.in_order;
        entity_count = n1;
        observation_count = n2;
        relation_count = n3;
        hash =
            rw
              (
                u64_of_usize-small _ le,
                u64_of_usize-small _ lo,
                u64_of_usize-small _ lr,
                n1,
                n2,
                n3,
              )
              (rw (x1, x3, x5, format) at hashed);
      }
