-- ===== src/Engine/Journal/Lines.antt =====
-- Reading a journal back: the lines of a file that `append` wrote, and the scan over them.
use openmemory.Prelude.{
  ℕ, false, List, [], ◌∷◌, ◌++◌, some, All, eqb, ◌≡◌, refl, append_assoc, append-nil, concat_map,
}
use openmemory.Text.{Text, trim, is_empty}
use openmemory.Engine.Batch.{success}
use openmemory.Engine.Journal.{
  complete, JournalRecord, Serde, Journal, newline, append_record, strip_return, last_line, lines,
  Scan, scan_record, scan_line, scan_lines,
}

-- A byte that does not end a line.
abbrev pub IsInner : ℕ → Type 0
IsInner b = eqb b newline ≡ false

-- What `serde_json` promises: a record is one line of UTF-8 that is not blank and reads back. This holds
-- of requests whose numbers are finite: a float that is not finite is written as `null`, which does
-- not read back, so `Request` stands for the requests without one.
pub record SerdeLaws {Request : Type 0} (serde : Serde Request) : Type 0 where
  pub line_of : JournalRecord Request → List ℕ
  pub text_of : JournalRecord Request → Text
  pub to_string_lem : (r : JournalRecord Request) → serde.to_string r ≡ some (line_of r)
  pub one_line : (r : JournalRecord Request) → All IsInner (line_of r)
  pub no_return : (r : JournalRecord Request) → strip_return (line_of r) ≡ line_of r
  pub utf8 : (r : JournalRecord Request) → serde.from_utf8 (line_of r) ≡ some (text_of r)
  pub not_blank : (r : JournalRecord Request) → is_empty (trim (text_of r)) ≡ false
  pub from_str_lem : (r : JournalRecord Request) → serde.from_str (text_of r) ≡ some r

pub lines-append :
    (start line rest : List ℕ)
    → All IsInner line
    → lines start (line ++ (newline ∷ rest)) ≡ strip_return (start ++ line) ∷ lines [] rest
unfolding lines
lines-append start [] rest h = rw (append-nil start) refl
lines-append start (b ∷ line) rest h =
    rw (h.0, lines-append (start ++ (b ∷ [])) line rest h.1, append_assoc start (b ∷ []) line) refl

-- A tail without an end of line is one last line.
pub lines_tail :
    (start tail : List ℕ) → All IsInner tail → lines start tail ≡ last_line (start ++ tail)
unfolding lines
lines_tail start [] h = rw (append-nil start) refl
lines_tail start (b ∷ tail) h =
    rw (h.0, lines_tail (start ++ (b ∷ [])) tail h.1, append_assoc start (b ∷ []) tail) refl

module _ {Request : Type 0} (serde : Serde Request) (laws : SerdeLaws serde) where
  -- The bytes of the records.
  unfoldable pub written : List (JournalRecord Request) → List ℕ
  written = concat_map (λ r. laws.line_of r ++ (newline ∷ []))

  pub written-append :
      (xs ys : List (JournalRecord Request)) → written (xs ++ ys) ≡ written xs ++ written ys
  unfolding written
  written-append [] ys = refl
  written-append (x ∷ xs) ys =
      rw (written-append xs ys, append_assoc (laws.line_of x ++ (newline ∷ []))) refl

  pub append_record-written :
      (journal : Journal) (r : JournalRecord Request)
      → append_record serde complete complete journal r.seq r.req
        ≡ record journal { buffered = journal.buffered ++ written (r ∷ []) }
  unfolding append_record written
  append_record-written journal r =
      rw (append_record, laws.to_string_lem r, append-nil (laws.line_of r ++ (newline ∷ []))) refl

  -- The loop of `replay` over records instead of lines.
  unfoldable pub scan_records : ℕ → List (JournalRecord Request) → Scan Request → Scan Request
  scan_records checkpoint [] scan = scan
  scan_records checkpoint (r ∷ rs) scan = scan_records checkpoint rs (scan_record checkpoint r scan)

  scan_line-line_of :
      (checkpoint : ℕ) (r : JournalRecord Request) (scan : Scan Request)
      → scan_line serde checkpoint (laws.line_of r) scan ≡ success (scan_record checkpoint r scan)
  unfolding scan_line
  scan_line-line_of checkpoint r scan =
      rw (scan_line, laws.utf8 r, laws.not_blank r, laws.from_str_lem r) refl

  pub scan_lines-written :
      (checkpoint : ℕ) (rs : List (JournalRecord Request)) (tail : List ℕ) (scan : Scan Request)
      → scan_lines serde checkpoint (lines [] (written rs ++ tail)) scan
        ≡ scan_lines serde checkpoint (lines [] tail) (scan_records checkpoint rs scan)
  unfolding scan_records scan_lines
  scan_lines-written checkpoint [] tail scan = unfold written in refl
  scan_lines-written checkpoint (r ∷ rs) tail scan =
      let e : written (r ∷ rs) ++ tail ≡ laws.line_of r ++ (newline ∷ (written rs ++ tail)) =
        unfold written in rw (append_assoc, append_assoc) refl in
      rw (e, lines-append [] (laws.line_of r) (written rs ++ tail) (laws.one_line r))
        (rw (scan_lines, laws.no_return r, scan_line-line_of checkpoint r scan)
          (scan_lines-written checkpoint rs tail (scan_record checkpoint r scan)))
