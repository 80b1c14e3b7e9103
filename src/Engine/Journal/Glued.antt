-- ===== src/Engine/Journal/Glued.antt =====
-- `append` of `crates/openmemory-engine/src/journal.rs` behind a torn line that no maintenance pass has removed.
use openmemory.Prelude.{
  ℕ, List, [], ◌∷◌, ◌++◌, some, none, length, All, All-append, inl, inr, Bool-cases, ◌≡◌, refl, ap,
  ◌∙◌, append_assoc, append-nil,
}
use openmemory.Text.{Text, trim, is_empty}
use openmemory.Engine.Batch.{RememberRequest, success, taken, Store, checkpoint_of}
use openmemory.Engine.Journal.{
  complete, JournalRecord, Serde, newline, append_record, flush, strip_return, last_line, lines,
  Scan, scan_line, scan_lines, Replayed, replay, contents,
}
use openmemory.Engine.Journal.Lines.{
  IsInner, SerdeLaws, lines-append, written, append_record-written,
}
use openmemory.Engine.Journal.Written.{append_all, no_bytes, replay_tail}
use openmemory.Engine.Journal.Replay.{above}

module _ {O R : Type 0} (serde : Serde (RememberRequest O R)) (laws : SerdeLaws serde) where
  glued_line :
      (torn : List ℕ) (r : JournalRecord (RememberRequest O R)) (t : Text)
      → All IsInner torn
      → strip_return (torn ++ laws.line_of r) ≡ torn ++ laws.line_of r
      → serde.from_utf8 (torn ++ laws.line_of r) ≡ some t
      → serde.from_str t ≡ none
      → (c : ℕ) (s : Scan (RememberRequest O R))
      → scan_lines serde c (lines [] (torn ++ (laws.line_of r ++ (newline ∷ [])))) s ≡ success s
  unfolding scan_lines scan_line lines last_line
  glued_line torn r t inner whole utf8 e c s =
      let one =
        lines-append [] (torn ++ laws.line_of r) []
          (All-append IsInner torn (laws.line_of r) inner (laws.one_line r)) in
      rw (← append_assoc torn, one, whole)
        (elim (Bool-cases (is_empty (trim t))) [
          | inl blank ↦ rw (scan_lines, scan_line, utf8, blank) refl
          | inr full ↦ rw (scan_lines, scan_line, utf8, full, e) refl
        ])

  appended :
      (file : List ℕ) (r : JournalRecord (RememberRequest O R))
      → (flush complete (
          append_record serde complete complete
            (record { file = file; buffered = [] })
            r.seq
            r.req)).file
        ≡ file ++ (laws.line_of r ++ (newline ∷ []))
  unfolding flush written
  appended file r =
      rw (append_record-written serde laws (record { file = file; buffered = [] }) r)
        (ap (λ xs. file ++ xs) (append-nil (laws.line_of r ++ (newline ∷ []))))

  -- A record that is appended and flushed behind a torn line, such that the two together are UTF-8 but
  -- no record, is lost: a replay on a store that refuses nothing succeeds, and applies the requests
  -- of the records before the torn line that are above the checkpoint, and no other.
  pub replay_glued :
      (rs : List (JournalRecord (RememberRequest O R))) (torn : List ℕ)
      (r : JournalRecord (RememberRequest O R)) (t : Text) (store : Store O R)
      → All IsInner torn
      → strip_return (torn ++ laws.line_of r) ≡ torn ++ laws.line_of r
      → serde.from_utf8 (torn ++ laws.line_of r) ≡ some t
      → serde.from_str t ≡ none
      → (out : Replayed O R) × (replay serde taken
            (contents
              (flush complete (
                append_record serde complete complete
                  (record {
                    file = (flush complete (append_all serde no_bytes rs)).file ++ torn;
                    buffered = [];
                  })
                  r.seq
                  r.req)).file)
            store
          ≡ success out)
        × (out.store.writes ≡ store.writes ++ above (checkpoint_of store) rs)
        × (out.replayed ≡ length (above (checkpoint_of store) rs))
  replay_glued rs torn r t store inner whole utf8 e =
      let file = (flush complete (append_all serde no_bytes rs)).file in
      let (out, done, writes, count) =
        replay_tail serde laws rs (torn ++ (laws.line_of r ++ (newline ∷ []))) store
          (glued_line torn r t inner whole utf8 e) in
      let same =
        appended (file ++ torn) r ∙ append_assoc file torn (laws.line_of r ++ (newline ∷ [])) in
      (out, ap (λ bytes. replay serde taken (contents bytes) store) same ∙ done, writes, count)
