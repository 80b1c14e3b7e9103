-- ===== src/Engine/Journal/Replay.antt =====
-- What `replay` of `crates/openmemory-engine/src/journal.rs` applies, and that a second replay applies nothing.
use openmemory.Prelude.{
  ℕ, ◌≤◌, ◌<◌, ◌⊎◌, inl, inr, List, [], ◌∷◌, ◌++◌, Option, none, some, ◌≡◌, refl, sym, subst, ◌∙◌,
  ap, length, Bool-cases, Option-cases, length-append, append_assoc, append-nil, ltb, if◌then◌else◌,
  arith,
}
use openmemory.Text.{trim, is_empty}
use openmemory.Engine.Batch.{success, failure, EngineError}
use openmemory.Engine.Journal.{JournalRecord, Serde, Scan, max, scan_record, scan_line, scan_lines}

-- The last number seen is the checkpoint or the highest number above it.
abbrev pub IsScan : {Request : Type 0} → ℕ → Scan Request → Type 0
IsScan c s =
    ((s.max_pending_seq ≡ 0) × (s.pending ≡ []) × (s.last_seq ≡ c))
    ⊎ ((c < s.max_pending_seq) × (s.last_seq ≡ s.max_pending_seq) × (0 < length s.pending))

-- The requests of the records above a checkpoint, in their order.
unfoldable pub above : {Request : Type 0} → ℕ → List (JournalRecord Request) → List Request
above c [] = []
above c (r ∷ rs) = let rest = above c rs in if ltb c r.seq then r.req ∷ rest else rest

module _ {Request : Type 0} (serde : Serde Request) where
  -- The record that a line holds, and the records of a file.
  unfoldable pub read_record : List ℕ → Option (JournalRecord Request)
  read_record bytes = elim (serde.from_utf8 bytes) [
    | none ↦ none
    | some line ↦ if is_empty (trim line) then none else serde.from_str line
  ]

  unfoldable pub records_in : List (List ℕ) → List (JournalRecord Request)
  unfolding read_record
  records_in [] = []
  records_in (l ∷ ls) = elim (read_record l) [ none ↦ records_in ls | some r ↦ r ∷ records_in ls ]

  -- A line is an error, is passed over, or is a record.
  pub data Line (bytes : List ℕ) : Type 0 where
    bad :
        ((c : ℕ) (s : Scan Request) → (scan_line serde c bytes s ≡ failure EngineError.io_error))
        → Line bytes
    skipped :
        read_record bytes ≡ none
        → ((c : ℕ) (s : Scan Request) → scan_line serde c bytes s ≡ success s)
        → Line bytes
    found :
        (r : JournalRecord Request)
        → read_record bytes ≡ some r
        → ((c : ℕ) (s : Scan Request) → scan_line serde c bytes s ≡ success (scan_record c r s))
        → Line bytes

  pub scan_line-cases : (bytes : List ℕ) → Line bytes
  unfolding scan_line read_record
  scan_line-cases bytes = elim (Option-cases (serde.from_utf8 bytes)) [
    | inl e ↦ bad (λ c s. rw (scan_line, e) refl)
    | inr (t, e) ↦ elim (Bool-cases (is_empty (trim t))) [
      | inl blank ↦ skipped (rw (read_record, e, blank) refl) (λ c s. rw (scan_line, e, blank) refl)
      | inr full ↦ elim (Option-cases (serde.from_str t)) [
        | inl n ↦
            skipped (rw (read_record, e, full, n) refl) (λ c s. rw (scan_line, e, full, n) refl)
        | inr (r, n) ↦
            found r (rw (read_record, e, full, n) refl) (λ c s. rw (scan_line, e, full, n) refl)
      ]
    ]
  ]

  pub scan_record-IsScan :
      (c : ℕ) (r : JournalRecord Request) (s : Scan Request)
      → IsScan c s
      → IsScan c (scan_record c r s)
  unfolding scan_record max
  scan_record-IsScan c r s h = ground (arith, length-append s.pending (r.req ∷ []))

  scan_record-le :
      (c : ℕ) (r : JournalRecord Request) (s : Scan Request)
      → (s.last_seq ≤ (scan_record c r s).last_seq) × (r.seq ≤ (scan_record c r s).last_seq)
  unfolding scan_record max
  scan_record-le c r s = ground arith

  pub scan_step :
      (c : ℕ) (l : List ℕ) (ls : List (List ℕ)) (s : Scan Request) {s' : Scan Request}
      → scan_line serde c l s ≡ success s'
      → scan_lines serde c (l ∷ ls) s ≡ scan_lines serde c ls s'
  unfolding scan_lines
  scan_step c l ls s e = rw (scan_lines, e) refl

  scan_stops :
      (c : ℕ) (l : List ℕ) (ls : List (List ℕ)) (s : Scan Request) {f : Scan Request}
      → scan_line serde c l s ≡ failure EngineError.io_error
      → scan_lines serde c (l ∷ ls) s ≡ success f
      → ⊥
  unfolding scan_lines
  scan_stops c l ls s e h = ground arith

  pub scan_lines-IsScan :
      (c : ℕ) (ls : List (List ℕ)) (s f : Scan Request)
      → IsScan c s
      → scan_lines serde c ls s ≡ success f
      → IsScan c f × (s.last_seq ≤ f.last_seq)
  scan_lines-IsScan c [] s f h e =
      let q : s ≡ f = unfold scan_lines in ground arith in ground (arith, q)
  scan_lines-IsScan c (l ∷ ls) s f h e = elim (scan_line-cases l) [
    | bad b ↦ absurd (scan_stops c l ls s (b c s) e)
    | skipped _ k ↦ scan_lines-IsScan c ls s f h (rw (scan_step c l ls s (k c s)) at e)
    | found r _ k ↦
        let (kept, more) =
          scan_lines-IsScan c ls (scan_record c r s) f (scan_record-IsScan c r s h)
            (rw (scan_step c l ls s (k c s)) at e) in
        (kept, omega (arith, scan_record-le c r s))
  ]

  -- The scan of a journal whose every number is covered by the checkpoint `d`.
  unfoldable pub nothing_above : ℕ → Scan Request
  nothing_above d = record { last_seq = d; pending = []; max_pending_seq = 0 }

  pub scan_record_covered :
      (d : ℕ) (r : JournalRecord Request)
      → r.seq ≤ d
      → scan_record d r (nothing_above d) ≡ nothing_above d
  unfolding scan_record nothing_above max
  scan_record_covered d r h = ground arith

  pub scan_lines_again :
      (c d : ℕ) (ls : List (List ℕ)) (s f : Scan Request)
      → IsScan c s
      → scan_lines serde c ls s ≡ success f
      → f.last_seq ≤ d
      → scan_lines serde d ls (nothing_above d) ≡ success (nothing_above d)
  scan_lines_again c d [] s f h e below = unfold scan_lines in refl
  scan_lines_again c d (l ∷ ls) s f h e below = elim (scan_line-cases l) [
    | bad b ↦ absurd (scan_stops c l ls s (b c s) e)
    | skipped _ k ↦
        scan_step d l ls (nothing_above d) (k d (nothing_above d))
        ∙ scan_lines_again c d ls s f h (rw (scan_step c l ls s (k c s)) at e) below
    | found r _ k ↦
        let e' = rw (scan_step c l ls s (k c s)) at e in
        let h' = scan_record-IsScan c r s h in
        let more = scan_lines-IsScan c ls (scan_record c r s) f h' e' in
        let covered = scan_record_covered d r (omega (arith, scan_record-le c r s, more.1)) in
        scan_step d l ls (nothing_above d) (k d (nothing_above d))
        ∙ ap (scan_lines serde d ls) covered
        ∙ scan_lines_again c d ls (scan_record c r s) f h' e' below
  ]

  pub scan_record-above :
      (c : ℕ) (r : JournalRecord Request) (rs : List (JournalRecord Request)) (s : Scan Request)
      → (scan_record c r s).pending ++ above c rs ≡ s.pending ++ above c (r ∷ rs)
  unfolding scan_record above
  scan_record-above c r rs s = elim (Bool-cases (ltb c r.seq)) [
    | inl new ↦ rw (new, append_assoc s.pending (r.req ∷ []) (above c rs)) refl
    | inr old ↦ rw old refl
  ]

  -- What is pending after the lines: the requests of their records above the checkpoint.
  pub scan_lines-above :
      (c : ℕ) (ls : List (List ℕ)) (s f : Scan Request)
      → scan_lines serde c ls s ≡ success f
      → f.pending ≡ s.pending ++ above c (records_in ls)
  unfolding records_in
  scan_lines-above c [] s f e =
      let q : s ≡ f = unfold scan_lines in ground arith in
      subst (λ (t : Scan Request). t.pending ≡ s.pending ++ above c []) q
        (unfold above in sym (append-nil s.pending))
  scan_lines-above c (l ∷ ls) s f e = elim (scan_line-cases l) [
    | bad b ↦ absurd (scan_stops c l ls s (b c s) e)
    | skipped n k ↦
        rw (records_in, n) (scan_lines-above c ls s f (rw (scan_step c l ls s (k c s)) at e))
    | found r n k ↦
        rw (records_in, n)
          (scan_lines-above c ls (scan_record c r s) f (rw (scan_step c l ls s (k c s)) at e)
            ∙ scan_record-above c r (records_in ls) s)
  ]
