-- ===== src/Engine/Shard/Queue.antt =====
-- The steps at the queue and at the journal keep a shard sound: a submission, the first part of a drain,
-- a reclaimed journal, and `BufWriter` handing lines over to the file.
use openmemory.Prelude.{
  ℕ, ◌+◌, ◌≤◌, Bool, true, false, inl, inr, List, [], ◌∷◌, ◌++◌, ◌≡◌, refl, sym, ap, ◌∙◌, subst,
  append-nil, append_assoc, eqb, Bool-cases, arith,
}
use openmemory.Text.{Externals}
use openmemory.Engine.Batch.{RememberRequest}
use openmemory.Engine.Journal.{complete, Serde, Journal, flush, truncate}
use openmemory.Engine.Journal.Lines.{SerdeLaws, written}
use openmemory.Engine.Journal.Applied.{List-cases}
use openmemory.Engine.Shard.{Shard, submit, begin_drain, reclaim}
use openmemory.Engine.Shard.Sound.{
  Settled, Numbered, Follows, Follows-append, Follows-le, bytes_of, bytes_of-append,
  append_record-bytes_of, Sound,
}

Follows-empty :
    {O R : Type 0} (d n : ℕ) (xs : List (Numbered O R)) → n ≤ d → Follows d xs n → xs ≡ []
Follows-empty d n [] le h = refl
Follows-empty d n (x ∷ xs) le h = absurd (omega (arith, Follows-le (d + 1) n xs h.1))

append-nil_right : {A : Type 0} (xs ys : List A) → xs ++ ys ≡ [] → ys ≡ []
append-nil_right [] ys h = h
append-nil_right (x ∷ xs) ys h = absurd (cc h)

module _ ⦃ext : Externals⦄ {O R : Type 0} (serde : Serde (RememberRequest O R))
    (laws : SerdeLaws serde) where
  -- `BufWriter` hands the lines of `early` over, and holds those of `late` back. That it may hand over
  -- a part of a line, or a long line before its end, is left out.
  unfoldable pub spill : List (Numbered O R) → List (Numbered O R) → Shard O R → Shard O R
  spill early late s = record s {
    journal = record {
      file = s.journal.file ++ bytes_of serde laws early;
      buffered = bytes_of serde laws late;
    };
  }

  pub submit-Sound :
      (settled : List (Settled O R)) (unwritten : List (Numbered O R)) (s : Shard O R)
      (req : RememberRequest O R)
      → Sound serde laws settled s.durable s.drained unwritten s
      → Sound serde laws settled s.durable s.drained
          (unwritten ++ ((s.next_seq + 1, req) ∷ []))
          (submit serde complete complete s req)
  unfolding submit
  submit-Sound settled unwritten s req
        (count, queue, mark, agrees, (old, queued, file, buffered, buf, low)) =
      let new : List (Numbered O R) = (s.next_seq + 1, req) ∷ [] in
      let e = append_record-bytes_of serde laws s.journal (s.next_seq + 1) req in
      (
        count,
        rw (sym (append_assoc s.drained s.buf new)) (
            Follows-append s.durable s.next_seq (s.next_seq + 1) (s.drained ++ s.buf) new queue
              (refl, refl)),
        mark,
        agrees,
        (
          old,
          queued,
          rw e file,
          rw (e, buffered) (sym (bytes_of-append serde laws unwritten new)),
          rw (buf, append_assoc queued unwritten new) refl,
          low,
        ),
      )

  -- Nothing is held back when the queue is empty.
  nothing_unwritten :
      (settled : List (Settled O R)) (drained unwritten : List (Numbered O R)) (s : Shard O R)
      → s.buf ≡ []
      → Sound serde laws settled s.durable drained unwritten s
      → (unwritten ≡ []) × Sound serde laws settled s.durable drained [] s
  nothing_unwritten settled drained unwritten s empty
        (count, queue, mark, agrees, (old, queued, file, buffered, buf, low)) =
      let none_late : unwritten ≡ [] = append-nil_right queued unwritten (sym buf ∙ empty) in
      (
        none_late,
        (
          count,
          queue,
          mark,
          agrees,
          (old, queued, file, rw none_late at buffered, rw none_late at buf, low),
        ),
      )

  pub begin_drain_eq :
      (s : Shard O R) (x : Numbered O R) (xs : List (Numbered O R))
      → s.buf ≡ x ∷ xs
      → begin_drain complete s
        ≡ record s { journal = flush complete s.journal; drained = s.buf; buf = [] }
  unfolding begin_drain
  begin_drain_eq s x xs e = rw (begin_drain, e) (rw e refl)

  pub begin_drain_idle : (s : Shard O R) → s.buf ≡ [] → begin_drain complete s ≡ s
  unfolding begin_drain
  begin_drain_idle s e = simp (begin_drain, e) refl

  flushed_rest : (journal : Journal) → (flush complete journal).buffered ≡ bytes_of serde laws []
  unfolding flush bytes_of written
  flushed_rest journal = refl

  flushed :
      (journal : Journal) (drained buf old queued unwritten : List (Numbered O R))
      → drained ≡ []
      → journal.file ≡ bytes_of serde laws (old ++ (drained ++ queued))
      → journal.buffered ≡ bytes_of serde laws unwritten
      → buf ≡ queued ++ unwritten
      → (flush complete journal).file ≡ bytes_of serde laws (old ++ (buf ++ []))
  unfolding flush
  flushed journal drained buf old queued unwritten idle file buffered e =
      rw (file, buffered, idle, e, append-nil (queued ++ unwritten))
        (sym (bytes_of-append serde laws (old ++ queued) unwritten)
          ∙ ap (bytes_of serde laws) (append_assoc old queued unwritten))

  pub begin_drain-Sound :
      (settled : List (Settled O R)) (unwritten : List (Numbered O R)) (s : Shard O R)
      → s.drained ≡ []
      → Sound serde laws settled s.durable s.drained unwritten s
      → Sound serde laws settled
          (begin_drain complete s).durable
          (begin_drain complete s).drained
          []
          (begin_drain complete s)
  begin_drain-Sound settled unwritten s idle h = elim (List-cases s.buf) [
    | inl nil ↦
        subst (λ (t : Shard O R). Sound serde laws settled t.durable t.drained [] t)
          (sym (begin_drain_idle s nil)) (nothing_unwritten settled s.drained unwritten s nil h).1
    | inr (x, xs, more) ↦
        let (count, queue, mark, agrees, (old, queued, file, buffered, buf, low)) = h in
        let all : (flush complete s.journal).file ≡ bytes_of serde laws (old ++ (s.buf ++ [])) =
          flushed s.journal s.drained s.buf old queued unwritten idle file buffered buf in
        subst (λ (t : Shard O R). Sound serde laws settled t.durable t.drained [] t)
          (sym (begin_drain_eq s x xs more))
          (
            count,
            rw (append-nil s.buf) (rw idle at queue),
            mark,
            agrees,
            (old, [], all, flushed_rest s.journal, refl, low),
          )
  ]

  truncated :
      (settled : List (Settled O R)) (s : Shard O R) (resized : Bool)
      → s.drained ≡ []
      → s.buf ≡ []
      → Sound serde laws settled s.durable s.drained [] s
      → Sound serde laws settled s.durable s.drained []
          (record s { journal = truncate complete resized s.journal })
  unfolding truncate flush bytes_of written
  truncated settled s true idle empty (count, queue, mark, agrees, _) =
      (count, queue, mark, agrees, ([], [], rw idle refl, refl, empty, tt))
  truncated settled s false idle empty
        (count, queue, mark, agrees, (old, queued, file, buffered, buf, low)) =
      (
        count,
        queue,
        mark,
        agrees,
        (old, queued, rw (buffered, append-nil s.journal.file) file, refl, buf, low),
      )

  pub reclaim_eq :
      (s : Shard O R) (watermark : ℕ) (resized : Bool)
      → s.buf ≡ []
      → eqb s.next_seq watermark ≡ true
      → reclaim complete watermark resized s
        ≡ record s { journal = truncate complete resized s.journal }
  unfolding reclaim
  reclaim_eq s watermark resized empty all = simp (reclaim, empty, all) refl

  pub reclaim_skipped :
      (s : Shard O R) (watermark : ℕ) (resized : Bool)
      → s.buf ≡ []
      → eqb s.next_seq watermark ≡ false
      → reclaim complete watermark resized s ≡ s
  unfolding reclaim
  reclaim_skipped s watermark resized empty more = simp (reclaim, empty, more) refl

  pub reclaim-Sound :
      (settled : List (Settled O R)) (unwritten : List (Numbered O R)) (s : Shard O R)
      (watermark : ℕ) (resized : Bool)
      → s.buf ≡ []
      → watermark ≤ s.durable
      → Sound serde laws settled s.durable s.drained unwritten s
      → Sound serde laws settled s.durable s.drained [] (reclaim complete watermark resized s)
  reclaim-Sound settled unwritten s watermark resized empty below h =
      let h' = (nothing_unwritten settled s.drained unwritten s empty h).1 in
      elim (Bool-cases (eqb s.next_seq watermark)) [
        | inl all ↦
            let q : Follows s.durable s.drained s.next_seq =
              rw (empty, append-nil s.drained) at h.1 in
            let idle = Follows-empty s.durable s.next_seq s.drained (ground arith) q in
            subst (λ (t : Shard O R). Sound serde laws settled s.durable s.drained [] t)
              (sym (reclaim_eq s watermark resized empty all))
              (truncated settled s resized idle empty h')
        | inr more ↦
            subst (λ (t : Shard O R). Sound serde laws settled s.durable s.drained [] t)
              (sym (reclaim_skipped s watermark resized empty more)) h'
      ]

  pub spill-Sound :
      (settled : List (Settled O R)) (early late : List (Numbered O R)) (s : Shard O R)
      → Sound serde laws settled s.durable s.drained (early ++ late) s
      → Sound serde laws settled s.durable s.drained late (spill early late s)
  unfolding spill
  spill-Sound settled early late s
        (count, queue, mark, agrees, (old, queued, file, buffered, buf, low)) =
      (
        count,
        queue,
        mark,
        agrees,
        (
          old,
          queued ++ early,
          rw (file, ← bytes_of-append serde laws, append_assoc old, append_assoc s.drained) refl,
          refl,
          buf ∙ sym (append_assoc queued early late),
          low,
        ),
      )
