-- ===== src/Engine/Journal/Applied.antt =====
-- What a replay leaves in the store, and that a second one applies nothing.
use openmemory.Prelude.{
  ℕ, ◌<◌, ◌⊎◌, inl, inr, List, [], ◌∷◌, ◌++◌, some, ◌≡◌, refl, ◌∙◌, length, append-nil, sym, ap,
  subst, arith,
}
use openmemory.Engine.Batch.{
  RememberRequest, Attempt, success, failure, EngineError, Fate, taken, refused, unmarked, Store,
  upsert_checkpoint, commit_checkpoint, commit, remember_batch, checkpoint_of,
}
use openmemory.Engine.Journal.{
  contents, Serde, lines, Scan, scan_lines, Replayed, commit_pending, replay,
}
use openmemory.Engine.Journal.Replay.{
  IsScan, nothing_above, scan_lines-IsScan, scan_lines_again, above, records_in, scan_lines-above,
}

pub List-cases :
    {A : Type 0} (xs : List A) → (xs ≡ []) ⊎ ((x : A) × (rest : List A) × (xs ≡ x ∷ rest))
List-cases [] = inl refl
List-cases (x ∷ rest) = inr (x, rest, refl)

pub checkpoint_of-commit :
    {O R : Type 0} (requests : List (RememberRequest O R)) (value : ℕ) (store : Store O R)
    → checkpoint_of store < value
    → checkpoint_of (commit requests (some value) store) ≡ value
unfolding checkpoint_of commit commit_checkpoint upsert_checkpoint
checkpoint_of-commit requests value store h = ground arith

pub Attempt-cases :
    {A : Type 0} (a : Attempt A)
    → ((e : EngineError) × (a ≡ failure e)) ⊎ ((x : A) × (a ≡ success x))
Attempt-cases (success x) = inr (x, refl)
Attempt-cases (failure e) = inl (e, refl)

pub remember_batch-success :
    {O R : Type 0} (fate : Fate) (reqs : List (RememberRequest O R)) (value : ℕ) (store : Store O R)
    {u : Unit {0}}
    → (remember_batch fate reqs (some value) store).0 ≡ success u
    → commit reqs (some value) store ≡ (remember_batch fate reqs (some value) store).1
unfolding remember_batch
remember_batch-success taken [] value store e = refl
remember_batch-success refused [] value store e = absurd (cc e)
remember_batch-success unmarked [] value store e = refl
remember_batch-success taken (r ∷ rs) value store e = refl
remember_batch-success refused (r ∷ rs) value store e = absurd (cc e)
remember_batch-success unmarked (r ∷ rs) value store e = absurd (cc e)

-- A batch that answers an error was rolled back, unless the bookkeeping behind the commit failed.
pub remember_batch-failure :
    {O R : Type 0} (fate : Fate) (reqs : List (RememberRequest O R)) (value : ℕ) (store : Store O R)
    {err : EngineError}
    → ¬ (fate ≡ unmarked)
    → (remember_batch fate reqs (some value) store).0 ≡ failure err
    → (remember_batch fate reqs (some value) store).1 ≡ store
unfolding remember_batch
remember_batch-failure taken [] value store h e = absurd (cc e)
remember_batch-failure refused [] value store h e = refl
remember_batch-failure unmarked [] value store h e = absurd (h refl)
remember_batch-failure taken (r ∷ rs) value store h e = absurd (cc e)
remember_batch-failure refused (r ∷ rs) value store h e = refl
remember_batch-failure unmarked (r ∷ rs) value store h e = absurd (h refl)

module _ {O R : Type 0} (serde : Serde (RememberRequest O R)) where
  -- What was pending is committed in one batch, and the checkpoint covers every number seen.
  abbrev pub Applies : Scan (RememberRequest O R) → Store O R → Replayed O R → Type 0
  Applies s store out =
      (out.last_seen ≡ s.last_seq)
      × (out.store.writes ≡ store.writes ++ s.pending)
      × (checkpoint_of out.store ≡ s.last_seq)
      × (out.replayed ≡ length s.pending)

  Applies-nothing :
      (s : Scan (RememberRequest O R)) (store : Store O R)
      → IsScan (checkpoint_of store) s
      → s.pending ≡ []
      → Applies s store (record { store = store; last_seen = s.last_seq; replayed = 0 })
  Applies-nothing s store h nil =
      let same : checkpoint_of store ≡ s.last_seq = ground arith in
      (refl, rw nil (sym (append-nil store.writes)), same, rw nil refl)

  Applies-batch :
      (s : Scan (RememberRequest O R)) (store : Store O R) (r : RememberRequest O R)
      (rs : List (RememberRequest O R))
      → IsScan (checkpoint_of store) s
      → s.pending ≡ r ∷ rs
      → Applies s store (record {
        store = commit (r ∷ rs) (some s.max_pending_seq) store;
        last_seen = s.last_seq;
        replayed = length (r ∷ rs);
      })
  Applies-batch s store r rs h more =
      let above : (checkpoint_of store < s.max_pending_seq) × (s.last_seq ≡ s.max_pending_seq) =
        ground arith in
      (
        refl,
        rw more (unfold commit in refl),
        checkpoint_of-commit (r ∷ rs) s.max_pending_seq store above.0 ∙ sym above.1,
        rw more refl,
      )

  pub commit_pending-Applies :
      (fate : Fate) (s : Scan (RememberRequest O R)) (store : Store O R) (out : Replayed O R)
      → IsScan (checkpoint_of store) s
      → commit_pending serde fate s store ≡ success out
      → Applies s store out
  commit_pending-Applies fate s store out h e = elim (List-cases s.pending) [
    | inl nil ↦
        let q : record { store = store; last_seen = s.last_seq; replayed = 0 } ≡ out =
          unfold commit_pending in ground arith in
        subst (Applies s store) q (Applies-nothing s store h nil)
    | inr (r, rs, more) ↦
        let answer = remember_batch fate (r ∷ rs) (some s.max_pending_seq) store in
        elim (Attempt-cases answer.0) [
          | inl (err, fails) ↦ absurd (unfold commit_pending in ground arith)
          | inr (u, passes) ↦
              let done : commit (r ∷ rs) (some s.max_pending_seq) store ≡ answer.1 =
                remember_batch-success fate (r ∷ rs) s.max_pending_seq store passes in
              let q : record {
                store = answer.1;
                last_seen = s.last_seq;
                replayed = length (r ∷ rs);
              }
                  ≡ out =
                unfold commit_pending in ground arith in
              subst (Applies s store) q (
                subst
                  (λ st.
                    Applies s store
                      (record { store = st; last_seen = s.last_seq; replayed = length (r ∷ rs) }))
                  done (Applies-batch s store r rs h more))
        ]
  ]

  -- A store that refuses nothing takes what is pending.
  pub commit_pending_total :
      (s : Scan (RememberRequest O R)) (store : Store O R)
      → (out : Replayed O R) × (commit_pending serde taken s store ≡ success out)
  unfolding commit_pending
  commit_pending_total s store = elim (List-cases s.pending) [
    | inl nil ↦ (
      record { store = store; last_seen = s.last_seq; replayed = 0 },
      rw (commit_pending, nil) refl,
    )
    | inr (r, rs, more) ↦ (
      record {
        store = commit (r ∷ rs) (some s.max_pending_seq) store;
        last_seen = s.last_seq;
        replayed = length (r ∷ rs);
      },
      rw (commit_pending, more) (unfold remember_batch in refl),
    )
  ]

  pub IsScan-start : (c : ℕ) → IsScan c (nothing_above serde c)
  IsScan-start c = unfold nothing_above in inl (refl, refl, refl)

  pub replay_eq :
      (fate : Fate) (file : List ℕ) (store : Store O R) (out : Replayed O R)
      → replay serde fate (contents file) store ≡ success out
      → (f : Scan (RememberRequest O R)) × (scan_lines serde
            (checkpoint_of store)
            (lines [] file)
            (nothing_above serde (checkpoint_of store))
          ≡ success f)
        × (commit_pending serde fate f store ≡ success out)
  unfolding replay nothing_above
  replay_eq fate file store out e =
      elim (Attempt-cases (
        scan_lines serde (checkpoint_of store) (lines [] file)
          (nothing_above serde (checkpoint_of store)))) [
            | inl (x, stops) ↦ absurd (ground arith)
            | inr (f, goes) ↦ (f, goes, ground arith)
          ]

  pub replay_scanned :
      (fate : Fate) (file : List ℕ) (store : Store O R) {f : Scan (RememberRequest O R)}
      → scan_lines serde
          (checkpoint_of store)
          (lines [] file)
          (nothing_above serde (checkpoint_of store))
        ≡ success f
      → replay serde fate (contents file) store ≡ commit_pending serde fate f store
  unfolding replay nothing_above
  replay_scanned fate file store e = rw (replay, e) refl

  -- A replay that succeeds has applied the requests of the journal's records above the checkpoint, each
  -- once and in their order, and no other, and gives their number. Replayed again, whether or not
  -- the store refuses batches then, the same file changes nothing, counts no entry and gives the
  -- same last number.
  pub replay_again :
      (fate fate' : Fate) (file : List ℕ) (store : Store O R) (out : Replayed O R)
      → replay serde fate (contents file) store ≡ success out
      → (out.store.writes
          ≡ store.writes ++ above (checkpoint_of store) (records_in serde (lines [] file)))
        × (out.replayed ≡ length (above (checkpoint_of store) (records_in serde (lines [] file))))
        × (replay serde fate' (contents file) out.store
            ≡ success (record { store = out.store; last_seen = out.last_seen; replayed = 0 }))
  replay_again fate fate' file store out e =
      let (f, scanned, committed) = replay_eq fate file store out e in
      let (h, _) = scan_lines-IsScan serde _ _ _ f (IsScan-start (checkpoint_of store)) scanned in
      let (last, writes, covers, count) = commit_pending-Applies fate f store out h committed in
      let all : f.pending ≡ above (checkpoint_of store) (records_in serde (lines [] file)) =
        scan_lines-above serde _ _ _ f scanned ∙ (unfold nothing_above in refl) in
      let again =
        scan_lines_again serde _ (checkpoint_of out.store) _ _ f
          (IsScan-start (checkpoint_of store)) scanned (omega arith) in
      (
        writes ∙ ap (λ xs. store.writes ++ xs) all,
        count ∙ ap length all,
        replay_scanned fate' file out.store again
            ∙ (unfold commit_pending nothing_above in rw (covers, last) refl),
      )
