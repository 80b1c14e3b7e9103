-- ===== src/Engine/Journal/Unreadable.antt =====
-- Where `replay` of `crates/openmemory-engine/src/journal.rs` fails on the text of the journal.
use openmemory.Prelude.{ℕ, List, ◌∷◌, ◌++◌, none, ◌≡◌, refl, ◌∙◌, []}
use openmemory.Engine.Batch.{RememberRequest, failure, io_error, Fate, Store, checkpoint_of}
use openmemory.Engine.Journal.{Serde, lines, Scan, scan_line, scan_lines, contents, replay}
use openmemory.Engine.Journal.Replay.{bad, skipped, found, scan_line-cases, scan_step}

module _ {O R : Type 0} (serde : Serde (RememberRequest O R)) where
  scan_line_bad :
      (c : ℕ) (bytes : List ℕ) (s : Scan (RememberRequest O R))
      → serde.from_utf8 bytes ≡ none
      → scan_line serde c bytes s ≡ failure io_error
  unfolding scan_line
  scan_line_bad c bytes s e = rw (scan_line, e) refl

  scan_fails :
      (c : ℕ) (l : List ℕ) (ls : List (List ℕ)) (s : Scan (RememberRequest O R))
      → scan_line serde c l s ≡ failure io_error
      → scan_lines serde c (l ∷ ls) s ≡ failure io_error
  unfolding scan_lines
  scan_fails c l ls s e = rw (scan_lines, e) refl

  scan_lines_bad :
      (c : ℕ) (front back : List (List ℕ)) (bytes : List ℕ) (s : Scan (RememberRequest O R))
      → serde.from_utf8 bytes ≡ none
      → scan_lines serde c (front ++ (bytes ∷ back)) s ≡ failure io_error
  scan_lines_bad c [] back bytes s e = scan_fails c bytes back s (scan_line_bad c bytes s e)
  scan_lines_bad c (l ∷ front) back bytes s e = elim (scan_line-cases serde l) [
    | bad b ↦ scan_fails c l (front ++ (bytes ∷ back)) s (b c s)
    | skipped _ k ↦
        scan_step serde c l (front ++ (bytes ∷ back)) s (k c s)
        ∙ scan_lines_bad c front back bytes s e
    | found r _ k ↦
        scan_step serde c l (front ++ (bytes ∷ back)) s (k c s)
        ∙ scan_lines_bad c front back bytes _ e
  ]

  -- One line that is not UTF-8, a torn last one too, makes a replay fail, whatever the other lines hold
  -- and whether or not the store would take the batch.
  pub replay_unreadable :
      (fate : Fate) (file : List ℕ) (store : Store O R) (front back : List (List ℕ))
      (bytes : List ℕ)
      → lines [] file ≡ front ++ (bytes ∷ back)
      → serde.from_utf8 bytes ≡ none
      → replay serde fate (contents file) store ≡ failure io_error
  unfolding replay
  replay_unreadable fate file store front back bytes split e =
      rw
        (
          replay,
          split,
          scan_lines_bad (checkpoint_of store) front back bytes
              (record { last_seq = checkpoint_of store; pending = []; max_pending_seq = 0 }) e,
        )
        refl
