-- ===== src/Engine/Journal.antt =====
-- `crates/openmemory-engine/src/journal.rs`: the journal of a shard, a file of JSON lines.
-- The file is its bytes; what `BufWriter` holds back is kept apart from what reached the file.
pub mod Lines
pub mod Replay
pub mod Applied
pub mod Written
pub mod Unreadable
pub mod Glued
use openmemory.Prelude.{
  ℕ, suc, take, drop, Bool, true, false, ◌+◌, List, [], ◌∷◌, ◌++◌, Option, none, some, All, ltb,
  eqb, reverse, ◌≡◌, if◌then◌else◌, length,
}
use openmemory.Text.{Text, trim, is_empty}
use openmemory.Engine.Batch.{
  RememberRequest, Attempt, success, failure, io_error, Fate, Store, remember_batch, checkpoint_of,
}

-- `JournalRecord` and `BorrowedJournalRecord`
pub record JournalRecord (Request : Type 0) : Type 0 where
  pub seq : ℕ
  pub req : Request

-- `serde_json` and the UTF-8 check of `BufRead::lines`, from outside the repository.
pub record Serde (Request : Type 0) : Type 0 where
  pub to_string : JournalRecord Request → Option (List ℕ)
  pub from_utf8 : List ℕ → Option Text
  pub from_str : Text → Option (JournalRecord Request)

-- The file, and the bytes that `BufWriter` has not handed over.
pub record Journal : Type 0 where
  pub file : List ℕ
  pub buffered : List ℕ

-- `b"\n"` and `b'\r'`
abbrev pub newline : ℕ
newline = 10

abbrev pub carriage_return : ℕ
carriage_return = 13

-- A write comes through whole, or fails behind so many bytes; the source ignores such a failure.
pub data Extent : Type 0 where
  complete : Extent
  cut : ℕ → Extent

abbrev pub passed : Extent → List ℕ → List ℕ
passed complete bytes = bytes
passed (cut n) bytes = take n bytes

abbrev pub left_over : Extent → List ℕ → List ℕ
left_over complete bytes = []
left_over (cut n) bytes = drop n bytes

-- The line and its end are two writes, each on its own.
unfoldable pub append_record :
    {Request : Type 0} → Serde Request → Extent → Extent → Journal → ℕ → Request → Journal
append_record serde first second journal seq req =
    elim (serde.to_string (record { seq = seq; req = req })) [
      | none ↦ journal
      | some line ↦ record journal {
        buffered = journal.buffered ++ (passed first line ++ passed second (newline ∷ []));
      }
    ]

unfoldable pub flush : Extent → Journal → Journal
flush extent journal = record {
  file = journal.file ++ passed extent journal.buffered;
  buffered = left_over extent journal.buffered;
}

-- `resized` is whether `set_len(0)` succeeds.
unfoldable pub truncate : Extent → Bool → Journal → Journal
unfolding flush
truncate extent resized journal =
    if resized then record (flush extent journal) { file = [] } else flush extent journal

-- `BufRead::lines`: a line ends before `\n` or `\r\n`, and the last one may have no end.
unfoldable pub strip_return : List ℕ → List ℕ
strip_return [] = []
strip_return (b ∷ []) = if eqb b carriage_return then [] else b ∷ []
strip_return (b ∷ c ∷ bs) = b ∷ strip_return (c ∷ bs)

unfoldable pub last_line : List ℕ → List (List ℕ)
last_line [] = []
last_line (b ∷ line) = (b ∷ line) ∷ []

unfoldable pub lines : List ℕ → List ℕ → List (List ℕ)
unfolding strip_return last_line
lines line [] = last_line line
lines line (b ∷ bs) =
    let ended = lines [] bs in
    let longer = lines (line ++ (b ∷ [])) bs in
    if eqb b newline then strip_return line ∷ ended else longer

-- The variables of the loop of `replay`.
pub record Scan (Request : Type 0) : Type 0 where
  pub last_seq : ℕ
  pub pending : List Request
  pub max_pending_seq : ℕ

unfoldable pub max : ℕ → ℕ → ℕ
max a b = if ltb a b then b else a

unfoldable pub scan_record :
    {Request : Type 0} → ℕ → JournalRecord Request → Scan Request → Scan Request
unfolding max
scan_record checkpoint r scan =
    if ltb checkpoint r.seq
    then record {
      last_seq = max scan.last_seq r.seq;
      pending = scan.pending ++ (r.req ∷ []);
      max_pending_seq = max scan.max_pending_seq r.seq;
    }
    else record scan { last_seq = max scan.last_seq r.seq }

-- `Err` on bytes that are not UTF-8; blank and unparseable lines are skipped.
unfoldable pub scan_line :
    {Request : Type 0} → Serde Request → ℕ → List ℕ → Scan Request → Attempt (Scan Request)
unfolding scan_record
scan_line serde checkpoint bytes scan = elim (serde.from_utf8 bytes) [
  | none ↦ failure io_error
  | some line ↦ if is_empty (trim line) then success scan else elim (serde.from_str line) [
    | none ↦ success scan
    | some r ↦ success (scan_record checkpoint r scan)
  ]
]

unfoldable pub scan_lines :
    {Request : Type 0} → Serde Request → ℕ → List (List ℕ) → Scan Request → Attempt (Scan Request)
unfolding scan_line
scan_lines serde checkpoint [] scan = success scan
scan_lines serde checkpoint (bytes ∷ rest) scan = elim (scan_line serde checkpoint bytes scan) [
  | failure e ↦ failure e
  | success scan' ↦ scan_lines serde checkpoint rest scan'
]

-- `File::open`: no such file, another error, or the bytes.
pub data Opened : Type 0 where
  not_found unreadable : Opened
  contents : List ℕ → Opened

-- What `replay` leaves: the store, the last sequence number seen, and the count of replayed entries.
pub record Replayed (O R : Type 0) : Type 0 where
  pub store : Store O R
  pub last_seen : ℕ
  pub replayed : ℕ

module _ {O R : Type 0} (serde : Serde (RememberRequest O R)) where
  -- The part of `replay` behind the loop. On a failure only the error is given.
  unfoldable pub commit_pending :
      Fate → Scan (RememberRequest O R) → Store O R → Attempt (Replayed O R)
  unfolding remember_batch
  commit_pending fate scan store = elim scan.pending [
    | [] ↦ success (record { store = store; last_seen = scan.last_seq; replayed = 0 })
    | r ∷ rs ↦
        let answer = remember_batch fate (r ∷ rs) (some scan.max_pending_seq) store in
        elim answer.0 [
          | failure e ↦ failure e
          | success _ ↦
              success
                (record { store = answer.1; last_seen = scan.last_seq; replayed = length (r ∷ rs) })
        ]
  ]

  -- The row of the checkpoint is taken to be readable.
  unfoldable pub replay : Fate → Opened → Store O R → Attempt (Replayed O R)
  unfolding scan_lines commit_pending lines checkpoint_of
  replay fate not_found store =
      success (record { store = store; last_seen = checkpoint_of store; replayed = 0 })
  replay fate unreadable store = failure io_error
  replay fate (contents file) store =
      let checkpoint = checkpoint_of store in
      elim (scan_lines serde checkpoint (lines [] file)
        (record { last_seq = checkpoint; pending = []; max_pending_seq = 0 })) [
          | failure e ↦ failure e
          | success scan ↦ commit_pending fate scan store
        ]
