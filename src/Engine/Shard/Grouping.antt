-- ===== src/Engine/Shard/Grouping.antt =====
-- `drain_shard` groups the requests of one entity before it commits them: no observation and no relation is lost,
-- added, or moved past another one of the same entity.
use openmemory.Prelude.{
  ℕ, true, false, List, [], ◌∷◌, ◌++◌, All, eqb, inl, inr, ◌≡◌, refl, sym, ap, ◌∙◌, subst,
  if◌then◌else◌, Bool-cases, append-nil, append_assoc, arith,
}
use openmemory.Text.{Externals}
use openmemory.Prelude.Order.{◌==◌, ==→≡, ==_sym, list_ord, nat_ord}
use openmemory.Engine.Batch.{RememberRequest}
use openmemory.Engine.Shard.{
  DrainGroupKey, from_request, same_key, extend, add_to_batch, group_requests,
}

same_key→≡ : (a b : DrainGroupKey) → same_key a b ≡ true → a ≡ b
unfolding same_key
same_key→≡ a b h =
    let p : (a.name_lower == b.name_lower) ≡ true = ground arith in
    let q : (a.source == b.source) ≡ true = ground arith in
    let e : a.entity_type ≡ b.entity_type = ground arith in
    λ i. record {
      name_lower = ==→≡ a.name_lower b.name_lower p i;
      entity_type = e i;
      source = ==→≡ a.source b.source q i;
    }

eqb_sym : (m n : ℕ) → eqb m n ≡ eqb n m
eqb_sym m n = ground arith

same_key_sym : (a b : DrainGroupKey) → same_key a b ≡ same_key b a
unfolding same_key
same_key_sym a b =
    rw
      (
        ==_sym a.name_lower b.name_lower,
        eqb_sym a.entity_type b.entity_type,
        ==_sym a.source b.source,
      )
      refl

module _ ⦃ext : Externals⦄ {O R A : Type 0} (field : RememberRequest O R → List A) where
  -- What the requests of one entity carry, in their order.
  unfoldable pub gathered : DrainGroupKey → List (RememberRequest O R) → List A
  gathered k [] = []
  gathered k (r ∷ rs) =
      let rest = gathered k rs in if same_key (from_request r) k then field r ++ rest else rest

  pub gathered-append :
      (k : DrainGroupKey) (xs ys : List (RememberRequest O R))
      → gathered k (xs ++ ys) ≡ gathered k xs ++ gathered k ys
  unfolding gathered
  gathered-append k [] ys = refl
  gathered-append k (x ∷ xs) ys = elim (Bool-cases (same_key (from_request x) k)) [
    | inl is ↦ rw (is, gathered-append k xs ys) (sym (append_assoc (field x) _ _))
    | inr isnt ↦ rw (isnt, gathered-append k xs ys) refl
  ]

  -- No request of the list is about the entity `k`.
  abbrev pub IsFree : DrainGroupKey → List (RememberRequest O R) → Type 0
  IsFree k = All (λ b. same_key k (from_request b) ≡ false)

  -- Every entity has one request in the batch.
  abbrev pub IsGrouped : List (RememberRequest O R) → Type 0
  IsGrouped [] = Unit
  IsGrouped (b ∷ batch) = IsFree (from_request b) batch × IsGrouped batch

  gathered_free :
      (k : DrainGroupKey) (rs : List (RememberRequest O R)) → IsFree k rs → gathered k rs ≡ []
  unfolding gathered
  gathered_free k [] h = refl
  gathered_free k (r ∷ rs) h = rw (same_key_sym (from_request r) k, h.0) (gathered_free k rs h.1)

  add_to_batch-IsFree :
      (k : DrainGroupKey) (batch : List (RememberRequest O R)) (req : RememberRequest O R)
      → IsFree k batch
      → same_key k (from_request req) ≡ false
      → IsFree k (add_to_batch batch req)
  unfolding add_to_batch
  add_to_batch-IsFree k [] req h e = (e, tt)
  add_to_batch-IsFree k (b ∷ batch) req h e =
      elim (Bool-cases (same_key (from_request b) (from_request req))) [
        | inl is ↦ rw is (unfold extend from_request in h.0, h.1)
        | inr isnt ↦ rw isnt (h.0, add_to_batch-IsFree k batch req h.1 e)
      ]

  add_to_batch-IsGrouped :
      (batch : List (RememberRequest O R)) (req : RememberRequest O R)
      → IsGrouped batch
      → IsGrouped (add_to_batch batch req)
  unfolding add_to_batch
  add_to_batch-IsGrouped [] req h = (tt, tt)
  add_to_batch-IsGrouped (b ∷ batch) req h =
      elim (Bool-cases (same_key (from_request b) (from_request req))) [
        | inl is ↦ rw is (unfold extend from_request in h.0, h.1)
        | inr isnt ↦ rw isnt (
          add_to_batch-IsFree (from_request b) batch req h.0 isnt,
          add_to_batch-IsGrouped batch req h.1,
        )
      ]

  module _ (joins : (a b : RememberRequest O R) → field (extend a b) ≡ field a ++ field b) where
    gathered-extend :
        (k : DrainGroupKey) (b req : RememberRequest O R)
        → same_key (from_request b) (from_request req) ≡ true
        → gathered k (extend b req ∷ []) ≡ gathered k (b ∷ []) ++ gathered k (req ∷ [])
    unfolding gathered
    gathered-extend k b req is =
        let e = same_key→≡ (from_request b) (from_request req) is in
        let e' : from_request (extend b req) ≡ from_request b =
          unfold extend from_request in refl in
        elim (Bool-cases (same_key (from_request b) k)) [
          | inl here ↦
              let there : same_key (from_request req) k ≡ true = rw e at here in
              rw (e', here, there, joins b req, append-nil (field b), append-nil (field req))
                (append-nil (field b ++ field req))
          | inr not_here ↦
              let not_there : same_key (from_request req) k ≡ false = rw e at not_here in
              rw (e', not_here, not_there) refl
        ]

    -- Of the two that stand behind `b` in the batch and in the queue, at most one is about `k`.
    gathered_swap :
        (k : DrainGroupKey) (b req : RememberRequest O R) (batch : List (RememberRequest O R))
        → same_key (from_request b) (from_request req) ≡ true
        → IsFree (from_request b) batch
        → gathered k (req ∷ []) ++ gathered k batch ≡ gathered k batch ++ gathered k (req ∷ [])
    gathered_swap k b req batch is free =
        let e = same_key→≡ (from_request b) (from_request req) is in
        elim (Bool-cases (same_key (from_request b) k)) [
          | inl here ↦
              let e' = same_key→≡ (from_request b) k here in
              let nothing = gathered_free k batch (subst (λ j. IsFree j batch) e' free) in
              rw nothing (append-nil (gathered k (req ∷ [])))
          | inr not_here ↦
              let not_there : same_key (from_request req) k ≡ false = rw e at not_here in
              let nothing : gathered k (req ∷ []) ≡ [] = unfold gathered in rw not_there refl in
              rw nothing (sym (append-nil (gathered k batch)))
        ]

    gathered-add_to_batch :
        (k : DrainGroupKey) (batch : List (RememberRequest O R)) (req : RememberRequest O R)
        → IsGrouped batch
        → gathered k (add_to_batch batch req) ≡ gathered k batch ++ gathered k (req ∷ [])
    unfolding add_to_batch
    gathered-add_to_batch k [] req h = unfold gathered in refl
    gathered-add_to_batch k (b ∷ batch) req h =
        let start = gathered-append k (b ∷ []) batch in
        elim (Bool-cases (same_key (from_request b) (from_request req))) [
          | inl is ↦ rw is (
              gathered-append k (extend b req ∷ []) batch
              ∙ ap (λ xs. xs ++ gathered k batch) (gathered-extend k b req is)
              ∙ append_assoc (gathered k (b ∷ [])) (gathered k (req ∷ [])) (gathered k batch)
              ∙ ap (λ xs. gathered k (b ∷ []) ++ xs) (gathered_swap k b req batch is h.0)
              ∙ sym (append_assoc (gathered k (b ∷ [])) (gathered k batch) (gathered k (req ∷ [])))
              ∙ ap (λ xs. xs ++ gathered k (req ∷ [])) (sym start))
          | inr isnt ↦ rw isnt (
              gathered-append k (b ∷ []) (add_to_batch batch req)
              ∙ ap (λ xs. gathered k (b ∷ []) ++ xs) (gathered-add_to_batch k batch req h.1)
              ∙ sym (append_assoc (gathered k (b ∷ [])) (gathered k batch) (gathered k (req ∷ [])))
              ∙ ap (λ xs. xs ++ gathered k (req ∷ [])) (sym start))
        ]

    pub gathered-group_requests :
        (k : DrainGroupKey) (batch reqs : List (RememberRequest O R))
        → IsGrouped batch
        → gathered k (group_requests batch reqs) ≡ gathered k batch ++ gathered k reqs
    unfolding group_requests
    gathered-group_requests k batch [] h = unfold gathered in sym (append-nil (gathered k batch))
    gathered-group_requests k batch (req ∷ reqs) h =
        gathered-group_requests k (add_to_batch batch req) reqs (add_to_batch-IsGrouped batch req h)
        ∙ ap (λ xs. xs ++ gathered k reqs) (gathered-add_to_batch k batch req h)
        ∙ append_assoc (gathered k batch) (gathered k (req ∷ [])) (gathered k reqs)
        ∙ ap (λ xs. gathered k batch ++ xs) (sym (gathered-append k (req ∷ []) reqs))

-- A drain commits, for each entity, the observations and the relations of its requests, in the order
-- in which they were submitted: grouping loses none, adds none and moves none past another.
pub group_requests-gathered :
    ⦃ext : Externals⦄ {O R : Type 0} (k : DrainGroupKey) (reqs : List (RememberRequest O R))
    → (gathered (λ r. r.observations) k (group_requests [] reqs)
        ≡ gathered (λ r. r.observations) k reqs)
      × (gathered (λ r. r.relations) k (group_requests [] reqs)
          ≡ gathered (λ r. r.relations) k reqs)
unfolding gathered extend
group_requests-gathered k reqs = (
  gathered-group_requests (λ r. r.observations) (λ a b. refl) k [] reqs tt,
  gathered-group_requests (λ r. r.relations) (λ a b. refl) k [] reqs tt,
)
