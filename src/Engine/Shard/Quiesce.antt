-- ===== src/Engine/Shard/Quiesce.antt =====
-- `ContextEngine::quiesce` of `crates/openmemory-engine/src/engine.rs`, for one shard: the drain that is under way
-- ends, and another one takes the queue.
use openmemory.Prelude.{ℕ, inl, inr, List, [], ◌∷◌, Option, some, ◌≡◌, refl, sym, subst}
use openmemory.Text.{Externals}
use openmemory.Engine.Batch.{RememberRequest, success, Fate, taken, Store, commit, remember_batch}
use openmemory.Engine.Journal.{complete, Extent, Serde}
use openmemory.Engine.Journal.Lines.{SerdeLaws}
use openmemory.Engine.Journal.Applied.{List-cases}
use openmemory.Engine.Shard.{
  Shard, begin_drain, commit_drained, finish_drain, group_requests, last_seq_of,
}
use openmemory.Engine.Shard.Sound.{Numbered, requests}
use openmemory.Engine.Shard.Drain.{IsAtomic}
use openmemory.Engine.Shard.Reach.{Reach, begun, finished}

module _ {O R : Type 0} where
  -- A store that takes what it is given.
  abbrev pub takes_all : Store O R → List (RememberRequest O R) → Option ℕ → Fate
  takes_all store requests checkpoint = taken

  pub takes_all-IsAtomic : IsAtomic {O = O} {R = R} takes_all
  takes_all-IsAtomic store requests checkpoint h = absurd (cc h)

  remember_batch-taken :
      (batch : List (RememberRequest O R)) (value : ℕ) (store : Store O R)
      → remember_batch taken batch (some value) store
        ≡ (success tt, commit batch (some value) store)
  unfolding remember_batch
  remember_batch-taken [] value store = refl
  remember_batch-taken (r ∷ rs) value store = refl

module _ ⦃ext : Externals⦄ {O R : Type 0} where
  unfoldable pub drain_shard :
      Extent → (Store O R → List (RememberRequest O R) → Option ℕ → Fate) → Shard O R → Shard O R
  unfolding begin_drain finish_drain
  drain_shard extent fates s = finish_drain fates (begin_drain extent s)

  unfoldable pub quiesce :
      Extent → (Store O R → List (RememberRequest O R) → Option ℕ → Fate) → Shard O R → Shard O R
  unfolding drain_shard finish_drain
  quiesce extent fates s = drain_shard extent fates (finish_drain fates s)

  abbrev Keeps : Shard O R → Shard O R → Type 0
  Keeps s t =
      (t.buf ≡ s.buf) × (t.next_seq ≡ s.next_seq) × (t.drained ≡ []) × (t.failures ≡ s.failures)

  commit_drained-Keeps : (s : Shard O R) → Keeps s (commit_drained takes_all s)
  unfolding commit_drained
  commit_drained-Keeps s =
      rw
        (
          commit_drained,
          remember_batch-taken (group_requests [] (requests s.drained)) (last_seq_of s.drained)
              s.store,
        )
        (refl, refl, refl, refl)

  -- A drain that the store takes leaves the queue alone.
  finish_drain-Keeps : (s : Shard O R) → Keeps s (finish_drain takes_all s)
  unfolding finish_drain
  finish_drain-Keeps s = elim (List-cases s.drained) [
    | inl nil ↦
        let e : finish_drain takes_all s ≡ s = simp (finish_drain, nil) refl in
        subst (Keeps s) (sym e) (refl, refl, nil, refl)
    | inr (x, xs, more) ↦
        let e : finish_drain takes_all s ≡ commit_drained takes_all s =
          simp (finish_drain, more) refl in
        subst (Keeps s) (sym e) (commit_drained-Keeps s)
  ]

module _ ⦃ext : Externals⦄ {O R : Type 0} (serde : Serde (RememberRequest O R))
    (laws : SerdeLaws serde) where
  pub quiesce-Reach :
      (accepted : List (RememberRequest O R)) (earlier : List ℕ) (unwritten : List (Numbered O R))
      (s : Shard O R)
      → Reach serde laws accepted earlier unwritten s
      → Reach serde laws accepted earlier [] (quiesce complete takes_all s)
  unfolding quiesce drain_shard
  quiesce-Reach accepted earlier unwritten s r =
      finished takes_all takes_all-IsAtomic
        (begun (finish_drain-Keeps s).2 (finished takes_all takes_all-IsAtomic r))
