-- ===== src/Engine/Journal/Written.antt =====
-- A journal that `append` wrote, with or without a torn line behind it, and what a replay makes of it.
use openmemory.Prelude.{
  ℕ, List, [], ◌∷◌, ◌++◌, ◌≡◌, refl, ◌∙◌, ap, length, append_assoc, append-nil, sym,
}
use openmemory.Text.{Text}
use openmemory.Engine.Batch.{RememberRequest, success, taken, Store, checkpoint_of}
use openmemory.Engine.Journal.{
  complete, contents, JournalRecord, Serde, Journal, append_record, flush, lines, Scan, scan_record,
  scan_line, scan_line, scan_lines, Replayed, replay,
}
use openmemory.Engine.Journal.Lines.{
  SerdeLaws, written, written-append, append_record-written, scan_records, scan_lines-written,
}
use openmemory.Engine.Journal.Replay.{
  scan_record-IsScan, IsScan, nothing_above, above, scan_record-above,
}
use openmemory.Engine.Journal.Applied.{
  commit_pending-Applies, commit_pending_total, IsScan-start, replay_scanned,
}

-- A journal as the engine leaves it: records appended one after the other, and flushed.
unfoldable pub append_all :
    {Request : Type 0} → Serde Request → Journal → List (JournalRecord Request) → Journal
unfolding append_record
append_all serde journal [] = journal
append_all serde journal (r ∷ rs) =
    append_all serde (append_record serde complete complete journal r.seq r.req) rs

abbrev pub no_bytes : Journal
no_bytes = record { file = []; buffered = [] }

module _ {O R : Type 0} (serde : Serde (RememberRequest O R)) (laws : SerdeLaws serde) where
  abbrev Record : Type 0
  Record = JournalRecord (RememberRequest O R)

  pub scan_records-above :
      (c : ℕ) (rs : List Record) (s : Scan (RememberRequest O R))
      → (scan_records serde laws c rs s).pending ≡ s.pending ++ above c rs
  unfolding scan_records
  scan_records-above c [] s = unfold above in sym (append-nil s.pending)
  scan_records-above c (r ∷ rs) s =
      scan_records-above c rs (scan_record c r s) ∙ scan_record-above serde c r rs s

  pub scan_records-IsScan :
      (c : ℕ) (rs : List Record) (s : Scan (RememberRequest O R))
      → IsScan c s
      → IsScan c (scan_records serde laws c rs s)
  unfolding scan_records
  scan_records-IsScan c [] s h = h
  scan_records-IsScan c (r ∷ rs) s h =
      scan_records-IsScan c rs (scan_record c r s) (scan_record-IsScan serde c r s h)

  pub flush-append_all :
      (rs : List Record) (journal : Journal)
      → (flush complete (append_all serde journal rs)).file
        ≡ journal.file ++ (journal.buffered ++ written serde laws rs)
  unfolding append_all
  flush-append_all [] journal = unfold flush written in rw append-nil refl
  flush-append_all (r ∷ rs) journal = rw (append_record-written serde laws journal r) (
      flush-append_all rs _
      ∙ rw (append_assoc journal.buffered, ← written-append serde laws (r ∷ []) rs) refl)

  -- A tail behind the records that a scan passes over adds nothing to what is applied.
  pub replay_tail :
      (rs : List Record) (tail : List ℕ) (store : Store O R)
      → ((c : ℕ) (s : Scan (RememberRequest O R))
          → (scan_lines serde c (lines [] tail) s ≡ success s))
      → (out : Replayed O R) × (replay serde taken
            (contents ((flush complete (append_all serde no_bytes rs)).file ++ tail))
            store
          ≡ success out)
        × (out.store.writes ≡ store.writes ++ above (checkpoint_of store) rs)
        × (out.replayed ≡ length (above (checkpoint_of store) rs))
  replay_tail rs tail store passes =
      let c = checkpoint_of store in
      let s = scan_records serde laws c rs (nothing_above serde c) in
      let scanned : scan_lines serde c
            (lines [] ((flush complete (append_all serde no_bytes rs)).file ++ tail))
            (nothing_above serde c)
          ≡ success s =
        rw (flush-append_all rs no_bytes)
          (scan_lines-written serde laws c rs tail (nothing_above serde c) ∙ passes c s) in
      let (out, done) = commit_pending_total serde s store in
      let h = scan_records-IsScan c rs (nothing_above serde c) (IsScan-start serde c) in
      let (_, writes, _, count) = commit_pending-Applies serde taken s store out h done in
      let found : s.pending ≡ above c rs =
        scan_records-above c rs (nothing_above serde c) ∙ (unfold nothing_above in refl) in
      (
        out,
        replay_scanned serde taken _ store scanned ∙ done,
        writes ∙ ap (λ xs. store.writes ++ xs) found,
        count ∙ ap length found,
      )
