-- ===== src/Engine/Shard/Restart.antt =====
-- A start from what a crash left: the journal puts back every request that had reached it, once.
use openmemory.Prelude.{
  inl, inr, ℕ, ◌+◌, ◌≤◌, true, List, [], ◌∷◌, ◌++◌, All, All-append, All-imp, ◌≡◌, refl, sym, ap,
  ◌∙◌, subst, append-nil, append_assoc, map-append, ltb, arith,
}
use openmemory.Text.{Externals}
use openmemory.Engine.Batch.{RememberRequest, success, Fate, Store, checkpoint_of}
use openmemory.Engine.Journal.{
  contents, Serde, Journal, JournalRecord, max, lines, last_line, Scan, scan_record, scan_lines,
  Replayed, replay,
}
use openmemory.Engine.Journal.Lines.{SerdeLaws, written, scan_records, scan_lines-written}
use openmemory.Engine.Journal.Replay.{nothing_above, scan_record_covered, scan_lines-IsScan, above}
use openmemory.Engine.Journal.Applied.{
  Attempt-cases, commit_pending-Applies, IsScan-start, replay_eq,
}
use openmemory.Engine.Journal.Written.{scan_records-above}
use openmemory.Engine.Shard.{Shard, start}
use openmemory.Engine.Shard.Sound.{
  Settled, Numbered, Follows, Follows-append, Follows-split, Follows-le, Follows-IsAtMost, IsAtMost,
  requests, records, numbered, numbered-settle, applied_of, applied_of-append, applied_of-settle,
  settle, Agrees, bytes_of, Sound, rejected_of, rejected_of-append, rejected_of-settle,
}
use openmemory.Engine.Shard.Settle.{Agrees-append}
use openmemory.Engine.Shard.Drain.{Done}

ltb_later : (c d n : ℕ) → c ≤ d → n ≡ d + 1 → ltb c n ≡ true
ltb_later c d n le e = ground arith

success_injective : {A : Type 0} (a b : A) → success a ≡ success b → a ≡ b
success_injective a b e = cc

module _ {O R : Type 0} (serde : Serde (RememberRequest O R)) (laws : SerdeLaws serde) where
  scan_old :
      (c : ℕ) (old : List (Numbered O R)) (rs : List (JournalRecord (RememberRequest O R)))
      → All (IsAtMost c) old
      → scan_records serde laws c (records old ++ rs) (nothing_above serde c)
        ≡ scan_records serde laws c rs (nothing_above serde c)
  unfolding scan_records
  scan_old c [] rs low = refl
  scan_old c (x ∷ old) rs low =
      ap (scan_records serde laws c (records old ++ rs))
        (scan_record_covered serde c (record { seq = x.0; req = x.1 }) low.0)
      ∙ scan_old c old rs low.1

  last_of_record :
      (c d : ℕ) (x : Numbered O R) (s : Scan (RememberRequest O R))
      → s.last_seq ≡ d
      → x.0 ≡ d + 1
      → (scan_record c (record { seq = x.0; req = x.1 }) s).last_seq ≡ d + 1
  unfolding scan_record max
  last_of_record c d x s e n = ground arith

  scan_live :
      (c d m : ℕ) (live : List (Numbered O R)) (s : Scan (RememberRequest O R))
      → Follows d live m
      → s.last_seq ≡ d
      → (scan_records serde laws c (records live) s).last_seq ≡ m
  unfolding scan_records
  scan_live c d m [] s h e = e ∙ h
  scan_live c d m (x ∷ live) s h e = scan_live c (d + 1) m live _ h.1 (last_of_record c d x s e h.0)

  above_live :
      (c d m : ℕ) (live : List (Numbered O R))
      → Follows d live m
      → c ≤ d
      → above c (records live) ≡ requests live
  unfolding above
  above_live c d m [] h le = refl
  above_live c d m (x ∷ live) h le =
      let new : ltb c x.0 ≡ true = ltb_later c d x.0 le h.0 in
      rw (new, above_live c (d + 1) m live h.1 (omega arith)) refl

  scan_written :
      (c : ℕ) (rs : List (JournalRecord (RememberRequest O R))) (s : Scan (RememberRequest O R))
      → scan_lines serde c (lines [] (written serde laws rs)) s
        ≡ success (scan_records serde laws c rs s)
  scan_written c rs s =
      ap (λ bytes. scan_lines serde c (lines [] bytes) s) (sym (append-nil (written serde laws rs)))
      ∙ scan_lines-written serde laws c rs [] s
      ∙ (unfold lines last_line scan_lines in refl)

  nothing_yet :
      (c : ℕ) → ((nothing_above serde c).last_seq ≡ c) × ((nothing_above serde c).pending ≡ [])
  unfolding nothing_above
  nothing_yet c = (refl, refl)

  -- What a replay of the file of a sound shard leaves.
  replay_live :
      (fate : Fate) (old live : List (Numbered O R)) (m : ℕ) (store : Store O R)
      (out : Replayed O R)
      → All (IsAtMost (checkpoint_of store)) old
      → Follows (checkpoint_of store) live m
      → replay serde fate (contents (written serde laws (records old ++ records live))) store
        ≡ success out
      → (out.last_seen ≡ m)
        × (out.store.writes ≡ store.writes ++ requests live)
        × (checkpoint_of out.store ≡ m)
  replay_live fate old live m store out low steps e =
      let c = checkpoint_of store in
      let (f, scanned, committed) = replay_eq serde fate _ store out e in
      let (h, _) = scan_lines-IsScan serde c _ _ f (IsScan-start serde c) scanned in
      let (seen, writes, covers, _) = commit_pending-Applies serde fate f store out h committed in
      let found : f ≡ scan_records serde laws c (records live) (nothing_above serde c) =
        success_injective f _ (
          sym scanned
          ∙ scan_written c (records old ++ records live) (nothing_above serde c)
          ∙ ap success (scan_old c old (records live) low)) in
      let last : f.last_seq ≡ m =
        ap (λ (s : Scan (RememberRequest O R)). s.last_seq) found
        ∙ scan_live c c m live (nothing_above serde c) steps (nothing_yet c).0 in
      let all : f.pending ≡ requests live =
        ap (λ (s : Scan (RememberRequest O R)). s.pending) found
        ∙ scan_records-above serde laws c (records live) (nothing_above serde c)
        ∙ ap (λ t. t ++ above c (records live)) (nothing_yet c).1
        ∙ above_live c c m live steps (omega arith) in
      (seen ∙ last, writes ∙ ap (λ t. store.writes ++ t) all, covers ∙ last)

module _ ⦃ext : Externals⦄ {O R : Type 0} (serde : Serde (RememberRequest O R))
    (laws : SerdeLaws serde) where
  start-success :
      (fate : Fate) (file : List ℕ) (store : Store O R) (t : Shard O R)
      → start serde fate (contents file) store ≡ success t
      → (out : Replayed O R) × (replay serde fate (contents file) store ≡ success out)
        × (record {
          buf = [];
          next_seq = out.last_seen;
          journal = record { file = file; buffered = [] };
          drained = [];
          durable = out.last_seen;
          failures = [];
          store = out.store;
        }
            ≡ t)
  unfolding start
  start-success fate file store t e =
      elim (Attempt-cases (replay serde fate (contents file) store)) [
        | inl (err, stops) ↦ absurd (ground arith)
        | inr (out, goes) ↦ (out, goes, success_injective _ t (sym (rw (start, goes) refl) ∙ e))
      ]

  bytes_of_records :
      (xs ys : List (Numbered O R))
      → bytes_of serde laws (xs ++ ys) ≡ written serde laws (records xs ++ records ys)
  unfolding bytes_of
  bytes_of_records xs ys = ap (written serde laws) (map-append _ xs ys)

  rest_of_queue :
      (before drained queued unwritten buf : List (Numbered O R))
      → buf ≡ queued ++ unwritten
      → (before ++ (drained ++ queued)) ++ unwritten ≡ before ++ (drained ++ buf)
  rest_of_queue before drained queued unwritten buf e =
      append_assoc before (drained ++ queued) unwritten
      ∙ ap (λ t. before ++ t) (append_assoc drained queued unwritten)
      ∙ ap (λ t. before ++ (drained ++ t)) (sym e)

  restarted :
      (settled : List (Settled O R)) (c m : ℕ) (old live : List (Numbered O R)) (store : Store O R)
      (journal : Journal) (out : Replayed O R)
      → Follows 0 (numbered settled) c
      → Follows c live m
      → Agrees store.writes (applied_of settled)
      → journal.file ≡ bytes_of serde laws (old ++ live)
      → All (IsAtMost c) old
      → out.last_seen ≡ m
      → out.store.writes ≡ store.writes ++ requests live
      → checkpoint_of out.store ≡ m
      → Done serde laws (rejected_of settled) (numbered settled ++ live) [] (record {
        buf = [];
        next_seq = out.last_seen;
        journal = record { file = journal.file; buffered = [] };
        drained = [];
        durable = out.last_seen;
        failures = [];
        store = out.store;
      })
  unfolding bytes_of written
  restarted settled c m old live store journal out count steps agrees file low seen writes covers =
      let new = settled ++ settle true live in
      let numbers : numbered new ≡ numbered settled ++ live =
        map-append _ settled (settle true live)
        ∙ ap (λ t. numbered settled ++ t) (numbered-settle true live) in
      let applied : applied_of new ≡ applied_of settled ++ requests live =
        applied_of-append settled (settle true live)
        ∙ ap (λ t. applied_of settled ++ t) (applied_of-settle live) in
      (
        new,
        (
          rw (seen, numbers) (Follows-append 0 c m (numbered settled) live count steps),
          refl,
          covers ∙ sym seen,
          rw (writes, applied)
              (Agrees-append store.writes (applied_of settled) (requests live) (requests live)
                agrees (λ k. (refl, refl))),
          (
            old ++ live,
            [],
            file ∙ ap (bytes_of serde laws) (sym (append-nil (old ++ live))),
            refl,
            refl,
            rw seen (
                All-append (IsAtMost m) old live
                  (All-imp (λ x h. omega (arith, Follows-le c m live steps)) old low)
                  (Follows-IsAtMost c m live steps)),
          ),
        ),
        refl,
        append-nil (numbered new) ∙ numbers,
        rejected_of-append settled (settle true live)
            ∙ ap (λ t. rejected_of settled ++ t) (rejected_of-settle live),
      )

  -- The shard that a start leaves is sound, and has accepted what was accepted but for the lines that
  -- had not reached the file.
  pub start-Sound :
      (fate : Fate) (settled : List (Settled O R)) (unwritten : List (Numbered O R))
      (s t : Shard O R)
      → Sound serde laws settled s.durable s.drained unwritten s
      → start serde fate (contents s.journal.file) s.store ≡ success t
      → (entries : List (Numbered O R)) × Done serde laws (rejected_of settled) entries [] t
        × (entries ++ unwritten ≡ numbered settled ++ (s.drained ++ s.buf))
  start-Sound fate settled unwritten s t
        (count, queue, mark, agrees, (old, queued, file, buffered, buf, low)) e =
      let live = s.drained ++ queued in
      let (out, replayed, shape) = start-success fate s.journal.file s.store t e in
      let (m, steps, _) =
        Follows-split s.durable s.next_seq live unwritten
          (rw (buf, ← append_assoc s.drained queued unwritten) at queue) in
      let text = file ∙ bytes_of_records old live in
      let (seen, writes, covers) =
        replay_live serde laws fate old live m s.store out
          (subst (λ d. All (IsAtMost d) old) (sym mark) low)
          (subst (λ d. Follows d live m) (sym mark) steps)
          (subst (λ b. replay serde fate (contents b) s.store ≡ success out) text replayed) in
      let kept =
        restarted settled s.durable m old live s.store s.journal out count steps agrees file low
          seen writes covers in
      (
        numbered settled ++ live,
        subst (Done serde laws (rejected_of settled) (numbered settled ++ live) []) shape kept,
        rest_of_queue (numbered settled) s.drained queued unwritten s.buf buf,
      )
