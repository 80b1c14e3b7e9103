-- ===== src/Engine/Shard/Drain.antt =====
-- The second part of a drain keeps a shard sound, whichever batches the store refuses: what it settles is
-- decided on once, and what it cannot settle stands in front of the queue again.
use openmemory.Prelude.{
  ℕ, ◌+◌, ◌<◌, Bool, true, false, inl, inr, ◌⊎◌, List, [], ◌∷◌, ◌++◌, Option, some, ◌≡◌, refl, sym,
  ap, ◌∙◌, subst, append-nil, append_assoc, map-append, ltb, arith,
}
use openmemory.Text.{Externals}
use openmemory.Engine.Batch.{RememberRequest, Fate, unmarked, Store, commit, remember_batch}
use openmemory.Engine.Journal.{Serde, max}
use openmemory.Engine.Journal.Lines.{SerdeLaws}
use openmemory.Engine.Journal.Applied.{
  List-cases, Attempt-cases, remember_batch-success, remember_batch-failure,
}
use openmemory.Engine.Shard.{
  Shard, group_requests, last_seq_of, publish, retry, commit_drained, finish_drain, commit_drained,
}
use openmemory.Engine.Shard.Grouping.{group_requests-gathered}
use openmemory.Engine.Shard.Sound.{
  Settled, Numbered, Follows, Follows-split, Follows-le, last_seq_of-Follows, requests, numbered,
  numbered-settle, applied_of, applied_of-settle, settle, Agrees, Sound, IsReported,
  IsReported-applied, IsReported-rejected,
}
use openmemory.Engine.Shard.Settle.{settle-Sound}

-- No batch is committed and answered with an error nevertheless.
abbrev pub IsAtomic :
    {O R : Type 0} → (Store O R → List (RememberRequest O R) → Option ℕ → Fate) → Type 0
IsAtomic {O} {R} fates =
    (store : Store O R) (reqs : List (RememberRequest O R)) (checkpoint : Option ℕ)
    → ¬ (fates store reqs checkpoint ≡ unmarked)

module _ ⦃ext : Externals⦄ {O R : Type 0} (serde : Serde (RememberRequest O R))
    (laws : SerdeLaws serde) (earlier : List ℕ) where
  -- What a step of the drain leaves: a sound shard without a drain, and every request accounted for.
  abbrev pub Done : List (Numbered O R) → List (Numbered O R) → Shard O R → Type 0
  Done entries unwritten t =
      (settled : List (Settled O R)) × Sound serde laws settled t.durable [] unwritten t
      × (t.drained ≡ [])
      × (numbered settled ++ t.buf ≡ entries)
      × IsReported earlier settled t

  -- What the retry has published so far, with the store at `c`.
  abbrev IsPublished : ℕ → ℕ → ℕ → Type 0
  IsPublished published c durable =
      ((published ≡ 0) × (c ≡ durable)) ⊎ ((published ≡ c) × (durable < c))

  publish_lem :
      (settled : List (Settled O R)) (c published : ℕ) (unwritten : List (Numbered O R))
      (s : Shard O R)
      → s.drained ≡ []
      → IsPublished published c s.durable
      → Sound serde laws settled c [] unwritten s
      → IsReported earlier settled s
      → Done (numbered settled ++ s.buf) unwritten (publish published s)
  unfolding publish max
  publish_lem settled c published unwritten s idle (inl (e, same)) h told =
      rw e (settled, rw same at h, idle, refl, told)
  publish_lem settled c published unwritten s idle (inr (e, later)) h told =
      let moved : Shard O R = record s { durable = c } in
      let up : ltb 0 published ≡ true = ground arith in
      let more : ltb s.durable published ≡ true = ground arith in
      let q : publish published s ≡ moved = rw (up, more) (rw e refl) in
      subst (Done (numbered settled ++ s.buf) unwritten) (sym q) (settled, h, idle, refl, told)

  -- The rest of the batch goes back in front of the queue.
  put_back :
      (settled : List (Settled O R)) (c : ℕ) (rest unwritten : List (Numbered O R)) (s : Shard O R)
      → Sound serde laws settled c rest unwritten s
      → Sound serde laws settled c [] unwritten (record s { buf = rest ++ s.buf })
  put_back settled c rest unwritten s
        (count, queue, mark, agrees, (old, queued, file, buffered, buf, low)) =
      (
        count,
        queue,
        mark,
        agrees,
        (
          old,
          rest ++ queued,
          file,
          buffered,
          rw (buf, append_assoc rest queued unwritten) refl,
          low,
        ),
      )

  -- One request of the retry that the store has decided on.
  settle_one :
      (settled : List (Settled O R)) (c : ℕ) (x : Numbered O R)
      (rest unwritten : List (Numbered O R)) (b : Bool) (reqs : List (RememberRequest O R))
      (s : Shard O R) (store : Store O R)
      → Agrees reqs (applied_of (settle b (x ∷ [])))
      → commit reqs (some x.0) s.store ≡ store
      → Sound serde laws settled c (x ∷ rest) unwritten s
      → Sound serde laws
          (settled ++ settle b (x ∷ []))
          x.0
          rest
          unwritten
          (record s { store = store })
  settle_one settled c x rest unwritten b reqs s store same e h =
      let next : x.0 ≡ c + 1 = h.1.0 in
      subst
        (λ st.
          Sound serde laws (settled ++ settle b (x ∷ [])) x.0 rest unwritten
            (record s { store = st }))
        e
        (settle-Sound serde laws settled c x.0 (x ∷ []) rest unwritten b reqs s (omega arith)
          (next, sym next) same h)

  moved_on :
      (settled : List (Settled O R)) (x : Numbered O R) (rest buf entries : List (Numbered O R))
      (b : Bool)
      → entries ≡ numbered (settled ++ settle b (x ∷ [])) ++ (rest ++ buf)
      → entries ≡ numbered settled ++ ((x ∷ rest) ++ buf)
  moved_on settled x rest buf entries b e =
      e
      ∙ ap (λ t. t ++ (rest ++ buf)) (map-append _ settled (settle b (x ∷ [])))
      ∙ append_assoc (numbered settled) (x ∷ []) (rest ++ buf)

  retry-Sound :
      (fates : Store O R → List (RememberRequest O R) → Option ℕ → Fate) (atomic : IsAtomic fates)
      (fallback : List (Numbered O R)) (settled : List (Settled O R)) (c published : ℕ)
      (unwritten : List (Numbered O R)) (s : Shard O R)
      → s.drained ≡ []
      → IsPublished published c s.durable
      → Sound serde laws settled c fallback unwritten s
      → IsReported earlier settled s
      → Done (numbered settled ++ (fallback ++ s.buf)) unwritten (retry fates fallback published s)
  unfolding retry
  retry-Sound fates atomic [] settled c published unwritten s idle p h told =
      publish_lem settled c published unwritten s idle p h told
  retry-Sound fates atomic ((seq, req) ∷ rest) settled c published unwritten s idle p h told =
      let next : seq ≡ c + 1 = h.1.0 in
      let later : IsPublished seq seq s.durable = inr (refl, ground arith) in
      let answer =
        remember_batch (fates s.store (req ∷ []) (some seq)) (req ∷ []) (some seq) s.store in
      elim (Attempt-cases answer.0) [
        | inr (u, e) ↦
            let t : Shard O R = record s { store = answer.1 } in
            let h' =
              settle_one settled c (seq, req) rest unwritten true (req ∷ []) s answer.1
                (λ k. (refl, refl))
                (remember_batch-success (fates s.store (req ∷ []) (some seq)) (req ∷ []) seq s.store
                  e)
                h in
            let (out, kept, done, all, told') =
              retry-Sound fates atomic rest (settled ++ settle true ((seq, req) ∷ [])) seq seq
                unwritten t idle later h'
                (IsReported-applied earlier settled ((seq, req) ∷ []) s told) in
            rw (retry, e)
              (out, kept, done, moved_on settled (seq, req) rest s.buf _ true all, told')
        | inl (err, e) ↦
            let same : answer.1 ≡ s.store =
              remember_batch-failure (fates s.store (req ∷ []) (some seq)) (req ∷ []) seq s.store
                (atomic _ _ _) e in
            let checkpoint = remember_batch (fates s.store [] (some seq)) [] (some seq) s.store in
            elim (Attempt-cases checkpoint.0) [
              | inr (u, e') ↦
                  let t : Shard O R = record s {
                    store = checkpoint.1;
                    failures = seq ∷ s.failures;
                  } in
                  let h' =
                    settle_one settled c (seq, req) rest unwritten false [] s checkpoint.1
                      (λ k. (refl, refl))
                      (remember_batch-success (fates s.store [] (some seq)) [] seq s.store e') h in
                  let (out, kept, done, all, told') =
                    retry-Sound fates atomic rest (settled ++ settle false ((seq, req) ∷ [])) seq
                      seq unwritten t idle later h'
                      (IsReported-rejected earlier settled (seq, req) s told) in
                  rw (retry, e, same, e', same)
                    (out, kept, done, moved_on settled (seq, req) rest s.buf _ false all, told')
              | inl (err', e') ↦
                  let same' : checkpoint.1 ≡ s.store =
                    remember_batch-failure (fates s.store [] (some seq)) [] seq s.store
                      (atomic _ _ _) e' in
                  rw (retry, e, same, e', same, same')
                    (publish_lem settled c published unwritten
                      (record s { buf = ((seq, req) ∷ rest) ++ s.buf }) idle p
                      (put_back settled c ((seq, req) ∷ rest) unwritten s h) told)
            ]
      ]

  -- The batch of a drain that the store takes.
  drained_all :
      (settled : List (Settled O R)) (unwritten : List (Numbered O R)) (s : Shard O R)
      (x : Numbered O R) (xs : List (Numbered O R)) (store : Store O R)
      → s.drained ≡ x ∷ xs
      → Sound serde laws settled s.durable s.drained unwritten s
      → IsReported earlier settled s
      → commit (group_requests [] (requests s.drained)) (some (last_seq_of s.drained)) s.store
        ≡ store
      → Done (numbered settled ++ (s.drained ++ s.buf)) unwritten (record s {
        drained = [];
        store = store;
        durable = max s.durable (last_seq_of s.drained);
      })
  drained_all settled unwritten s x xs store more h told e =
      let c = s.durable in
      let batch = group_requests [] (requests s.drained) in
      let (m, front, back) = Follows-split c s.next_seq s.drained s.buf h.1 in
      let front' : Follows c (x ∷ xs) m = rw more at front in
      let last : last_seq_of s.drained ≡ m = rw more (last_seq_of-Follows c m x xs front') in
      let less : c < m = omega (arith, Follows-le (c + 1) m xs front'.1) in
      let above : ltb c m ≡ true = ground arith in
      let top : max c (last_seq_of s.drained) ≡ m = unfold max in rw (last, above) refl in
      let same : Agrees batch (applied_of (settle true s.drained)) =
        λ k. rw (applied_of-settle s.drained) (group_requests-gathered k (requests s.drained)) in
      let h' =
        subst (λ d. Sound serde laws settled c d unwritten s) (sym (append-nil s.drained)) h in
      let kept =
        settle-Sound serde laws settled c m s.drained [] unwritten true batch s less front same
          h' in
      let kept' =
        subst
          (λ st.
            Sound serde laws (settled ++ settle true s.drained) m [] unwritten
              (record s { store = st }))
          (rw last at e) kept in
      subst
        (λ d.
          Done (numbered settled ++ (s.drained ++ s.buf)) unwritten
            (record s { drained = []; store = store; durable = d }))
        (sym top)
        (
          settled ++ settle true s.drained,
          kept',
          refl,
          ap (λ t. t ++ s.buf)
                (map-append _ settled (settle true s.drained)
                  ∙ ap (λ t. numbered settled ++ t) (numbered-settle true s.drained))
              ∙ append_assoc (numbered settled) s.drained s.buf,
          IsReported-applied earlier settled s.drained s told,
        )

  commit_drained-Done :
      (fates : Store O R → List (RememberRequest O R) → Option ℕ → Fate) (atomic : IsAtomic fates)
      (settled : List (Settled O R)) (unwritten : List (Numbered O R)) (s : Shard O R)
      (x : Numbered O R) (xs : List (Numbered O R))
      → s.drained ≡ x ∷ xs
      → Sound serde laws settled s.durable s.drained unwritten s
      → IsReported earlier settled s
      → Done (numbered settled ++ (s.drained ++ s.buf)) unwritten (commit_drained fates s)
  unfolding commit_drained
  commit_drained-Done fates atomic settled unwritten s x xs more h told =
      let batch = group_requests [] (requests s.drained) in
      let max_seq = last_seq_of s.drained in
      let fate = fates s.store batch (some max_seq) in
      let answer = remember_batch fate batch (some max_seq) s.store in
      elim (Attempt-cases answer.0) [
        | inr (u, e) ↦
            rw (commit_drained, e)
              (drained_all settled unwritten s x xs answer.1 more h told
                (remember_batch-success fate batch max_seq s.store e))
        | inl (err, e) ↦
            let same : answer.1 ≡ s.store =
              remember_batch-failure fate batch max_seq s.store (atomic _ _ _) e in
            rw (commit_drained, e, same)
              (retry-Sound fates atomic s.drained settled s.durable 0 unwritten
                (record s { drained = [] }) refl (inl (refl, refl)) h told)
      ]

  pub finish_drain-Sound :
      (fates : Store O R → List (RememberRequest O R) → Option ℕ → Fate) (atomic : IsAtomic fates)
      (settled : List (Settled O R)) (unwritten : List (Numbered O R)) (s : Shard O R)
      → Sound serde laws settled s.durable s.drained unwritten s
      → IsReported earlier settled s
      → Done (numbered settled ++ (s.drained ++ s.buf)) unwritten (finish_drain fates s)
  unfolding finish_drain
  finish_drain-Sound fates atomic settled unwritten s h told = elim (List-cases s.drained) [
    | inl nil ↦
        let e : finish_drain fates s ≡ s = simp (finish_drain, nil) refl in
        subst (Done (numbered settled ++ (s.drained ++ s.buf)) unwritten) (sym e)
          (settled, rw nil at h, nil, ap (λ d. numbered settled ++ (d ++ s.buf)) (sym nil), told)
    | inr (x, xs, more) ↦
        let e : finish_drain fates s ≡ commit_drained fates s = simp (finish_drain, more) refl in
        subst (Done (numbered settled ++ (s.drained ++ s.buf)) unwritten) (sym e)
          (commit_drained-Done fates atomic settled unwritten s x xs more h told)
  ]
