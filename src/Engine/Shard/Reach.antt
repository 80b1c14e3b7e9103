-- ===== src/Engine/Shard/Reach.antt =====
-- The states that a shard can come to: submissions, the two parts of a drain and the maintenance pass in
-- any order, with process crashes in between. `accepted` are the requests that were submitted and did
-- not get lost in a crash, `unwritten` the entries whose lines `BufWriter` still holds back, and
-- `earlier` the numbers in the tables of failures of the processes before this one, the oldest first.
-- The writes and flushes of the journal come through whole, and between flushes `BufWriter` hands over
-- whole lines, so a crash leaves whole lines in the file; torn lines are the subject of `Written` and
-- `Glued` of `Engine.Journal`. No batch is committed and answered with an error nevertheless.
use openmemory.Prelude.{ℕ, ◌+◌, ◌≤◌, Bool, List, [], ◌∷◌, ◌++◌, Option, none, reverse, ◌≡◌}
use openmemory.Text.{Externals}
use openmemory.Engine.Batch.{RememberRequest, success, Fate, Store}
use openmemory.Engine.Journal.{complete, contents, Serde, Journal}
use openmemory.Engine.Journal.Lines.{SerdeLaws}
use openmemory.Engine.Shard.{Shard, submit, begin_drain, finish_drain, reclaim, start}
use openmemory.Engine.Shard.Sound.{Settled, Numbered, numbered, requests, Sound, IsReported}
use openmemory.Engine.Shard.Queue.{spill}
use openmemory.Engine.Shard.Drain.{IsAtomic}

-- A shard without a past.
unfoldable pub fresh : {O R : Type 0} → Shard O R
fresh = record {
  buf = [];
  next_seq = 0;
  journal = record { file = []; buffered = [] };
  drained = [];
  durable = 0;
  failures = [];
  store = record { checkpoint_row = none; writes = [] };
}

-- With an empty queue nothing is held back; otherwise what was held back stays so.
abbrev pub unless_idle : {A B : Type 0} → List A → List B → List B
unless_idle [] unwritten = []
unless_idle (x ∷ xs) unwritten = unwritten

module _ ⦃ext : Externals⦄ {O R : Type 0} (serde : Serde (RememberRequest O R))
    (laws : SerdeLaws serde) where
  pub data Reach
      : List (RememberRequest O R) → List ℕ → List (Numbered O R) → Shard O R → Type 0 where
    started : Reach [] [] [] fresh
    submitted :
        {accepted : List (RememberRequest O R)} {earlier : List ℕ} {unwritten : List (Numbered O R)}
        {s : Shard O R} (req : RememberRequest O R)
        → Reach accepted earlier unwritten s
        → Reach
            (accepted ++ (req ∷ []))
            earlier
            (unwritten ++ ((s.next_seq + 1, req) ∷ []))
            (submit serde complete complete s req)
    spilled :
        {accepted : List (RememberRequest O R)} {earlier : List ℕ} {s : Shard O R}
        (early late : List (Numbered O R))
        → Reach accepted earlier (early ++ late) s
        → Reach accepted earlier late (spill serde laws early late s)
    -- The drain lock lets one drain begin at a time.
    begun :
        {accepted : List (RememberRequest O R)} {earlier : List ℕ} {unwritten : List (Numbered O R)}
        {s : Shard O R}
        → s.drained ≡ []
        → Reach accepted earlier unwritten s
        → Reach accepted earlier [] (begin_drain complete s)
    finished :
        {accepted : List (RememberRequest O R)} {earlier : List ℕ} {unwritten : List (Numbered O R)}
        {s : Shard O R} (fates : Store O R → List (RememberRequest O R) → Option ℕ → Fate)
        → IsAtomic fates
        → Reach accepted earlier unwritten s
        → Reach accepted earlier unwritten (finish_drain fates s)
    -- The watermark was read earlier, so it is not above the present one.
    reclaimed :
        {accepted : List (RememberRequest O R)} {earlier : List ℕ} {unwritten : List (Numbered O R)}
        {s : Shard O R} (watermark : ℕ) (resized : Bool)
        → watermark ≤ s.durable
        → Reach accepted earlier unwritten s
        → Reach accepted earlier
            (unless_idle s.buf unwritten)
            (reclaim complete watermark resized s)
    -- The process ends, and the next one starts from the file and the store.
    crashed :
        {accepted : List (RememberRequest O R)} {earlier : List ℕ} {unwritten : List (Numbered O R)}
        {s t : Shard O R} (fate : Fate)
        → Reach (accepted ++ requests unwritten) earlier unwritten s
        → start serde fate (contents s.journal.file) s.store ≡ success t
        → Reach accepted (earlier ++ reverse s.failures) [] t

  -- Every accepted request is settled, in the drain or in the queue, once and in the order of submission;
  -- the settled ones that were rejected are those that the table of failures names, behind
  -- `earlier`; and the store carries what the others carried.
  abbrev pub IsAccounted :
      List (RememberRequest O R) → List ℕ → List (Numbered O R) → Shard O R → Type 0
  IsAccounted accepted earlier unwritten s =
      (settled : List (Settled O R)) × Sound serde laws settled s.durable s.drained unwritten s
      × (requests (numbered settled ++ (s.drained ++ s.buf)) ≡ accepted)
      × IsReported earlier settled s
