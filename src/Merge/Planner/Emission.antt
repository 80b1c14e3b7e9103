-- ===== src/Merge/Planner/Emission.antt =====
-- What a run has handed to the memory sink, and rules for the computations of the planner.
pub mod Steps
pub mod Phases
use openmemory.Prelude.{
  ◌<◌, subst, MergeErrorCode, ◌≡◌, refl, ◌∙◌, List, [], ◌∷◌, ◌++◌, map, foldl, concat_map,
  append-nil, append_assoc, foldl-append, map-append, Result, ok, err,
}
use openmemory.Text.{Externals}
use openmemory.Merge.Canonical.{CanonicalHasher, each}
use openmemory.Merge.Model.Records.{EntityRecord, ObservationRecord, RelationRecord}
use openmemory.Merge.Planner.{
  max_actions, total_actions, MergeAction, keep_target_entity, apply_entity_disposition,
  keep_target_observation, add_observation, merge_observation_origin, keep_target_relation,
  add_relation, merge_relation_origin,
}
use openmemory.Merge.Planner.Tokens.{encode_action, result_tokens, count_action}
use openmemory.Merge.Planner.Sink.{MemoryActionSink}
use openmemory.Merge.Planner.Stream.{Plan, PlanningState, ◌>>=◌, continue, lift}

-- `P` holds of the answer and the state of a computation that succeeds.
pub record Ensures {S A : Type 0} (P : A → S → Type 0) (r : Result A × S) : Type 0 where
  pub holds : (a : A) → r.0 ≡ ok a → P a r.1

module _ {S A : Type 0} {P : A → S → Type 0} where
  pub Ensures-pure : {a : A} {s : S} → P a s → Ensures P (ok a, s)
  Ensures-pure {a} {s} p = record { holds = λ b e. let q : a ≡ b = cc in subst (λ x. P x s) q p }

  pub Ensures-err : {e : MergeErrorCode} {s : S} → Ensures P (err e, s)
  Ensures-err = record { holds = λ b q. absurd (err-ne-ok q) }
    where
      err-ne-ok : {e : MergeErrorCode} {b : A} → err e ≡ ok b → ⊥
      err-ne-ok q = cc

module _ {S A B : Type 0} {Q : B → S → Type 0} where
  pub Ensures-lift :
      (r : Result A) (f : A → Plan S B) {s : S}
      → ((a : A) → r ≡ ok a → Ensures Q (f a s))
      → Ensures Q (continue r f s)
  unfolding continue
  Ensures-lift r f {s} k = go r k
    where
      go : (r : Result A) → ((a : A) → r ≡ ok a → Ensures Q (f a s)) → Ensures Q (continue r f s)
      go (ok a) k' = k' a refl
      go (err e) k' = Ensures-err

  pub Ensures-bind :
      {P : A → S → Type 0} {m : Result A × S} {f : A → Plan S B}
      → Ensures P m
      → ((a : A) (t : S) → P a t → Ensures Q (f a t))
      → Ensures Q (continue m.0 f m.1)
  unfolding continue
  Ensures-bind {P} {m} {f} h k = go m.0 h.holds
    where
      go : (r : Result A) → ((a : A) → r ≡ ok a → P a m.1) → Ensures Q (continue r f m.1)
      go (ok a) h' = k a m.1 (h' a refl)
      go (err e) h' = Ensures-err

-- A record of one of the six streams.
pub data Input : Type 0 where
  target_entity source_entity : EntityRecord → Input
  target_observation source_observation : ObservationRecord → Input
  target_relation source_relation : RelationRecord → Input

-- The record that an action consumes.
abbrev pub input_of : MergeAction → Input
input_of (keep_target_entity r) = target_entity r
input_of (apply_entity_disposition r _) = source_entity r
input_of (keep_target_observation r _) = target_observation r
input_of (add_observation r _ _) = source_observation r
input_of (merge_observation_origin r _ _) = source_observation r
input_of (keep_target_relation r _ _) = target_relation r
input_of (add_relation r _ _ _) = source_relation r
input_of (merge_relation_origin r _ _ _) = source_relation r

module _ ⦃ext : Externals⦄ where
  -- Between two moments of a run the actions for `inputs` were emitted: the sink has them at the
  -- end of its list, and the hash, the tokens and the counts have followed them.
  pub record Emitted (inputs : List Input) (before after : PlanningState) (s t : MemoryActionSink)
      : Type 0 where
    pub actions : List MergeAction
    pub consumed : map input_of actions ≡ inputs
    pub collected : t ≡ record s { actions = s.actions ++ actions }
    pub hashed : after.action_hash ≡ each encode_action actions before.action_hash
    pub tokens : after.result_tokens ≡ before.result_tokens ++ concat_map result_tokens actions
    pub counted : after.counts ≡ foldl count_action before.counts actions
    pub accounted : after.accounting ≡ before.accounting
    pub room : total_actions before.counts < max_actions → total_actions after.counts < max_actions

  pub Emitted-refl : (before : PlanningState) (s : MemoryActionSink) → Emitted [] before before s s
  unfolding each
  Emitted-refl before s = record {
    actions = [];
    consumed = refl;
    collected = rw append-nil;
    hashed = refl;
    tokens = rw append-nil;
    counted = refl;
    accounted = refl;
    room = λ h. h;
  }

  each-append :
      (xs ys : List MergeAction) (h : CanonicalHasher)
      → each encode_action (xs ++ ys) h ≡ each encode_action ys (each encode_action xs h)
  unfolding each
  each-append [] ys h = refl
  each-append (x ∷ xs) ys h = each-append xs ys (encode_action x h)

  concat_map-append :
      (xs ys : List MergeAction)
      → concat_map result_tokens (xs ++ ys)
        ≡ concat_map result_tokens xs ++ concat_map result_tokens ys
  concat_map-append [] ys = refl
  concat_map-append (x ∷ xs) ys = simp (concat_map-append xs ys, append_assoc)

  pub Emitted-trans :
      {is js : List Input} {a b c : PlanningState} {s t u : MemoryActionSink}
      → Emitted is a b s t
      → Emitted js b c t u
      → Emitted (is ++ js) a c s u
  Emitted-trans {is} {js} {a} {b} {c} {s} {t} {u} p q = record {
    actions = p.actions ++ q.actions;
    consumed = rw (map-append, p.consumed, q.consumed);
    collected = rw (q.collected, p.collected, append_assoc);
    hashed = rw (each-append, ← p.hashed, ← q.hashed);
    tokens = rw (concat_map-append, q.tokens, p.tokens, append_assoc);
    counted = rw (foldl-append, ← p.counted, ← q.counted);
    accounted = q.accounted ∙ p.accounted;
    room = λ h. q.room (p.room h);
  }
