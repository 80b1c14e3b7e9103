-- ===== src/Engine/Examples.antt =====
-- A line format for requests over numbers, in place of JSON, and the theorems of the engine at it.
use openmemory.Prelude.{
  any, leb, ℕ, ◌+◌, ◌-◌, false, inl, inr, List, [], ◌∷◌, ◌++◌, Option, none, some, All, reverse,
  length, append_assoc, append-nil, eqb, ◌≡◌, refl, ap, if◌then◌else◌, Bool-cases, arith,
}
use openmemory.Text.{Text, Externals, trim, skip_whitespace, is_whitespace, is_empty}
use openmemory.Engine.Batch.{
  RememberRequest, Attempt, success, failure, io_error, Fate, taken, refused, unmarked, Store,
  checkpoint_of,
}
use openmemory.Engine.Journal.{
  complete, append_record, lines, contents, JournalRecord, Serde, strip_return, flush, Replayed,
  replay,
}
use openmemory.Engine.Journal.Lines.{IsInner, SerdeLaws}
use openmemory.Engine.Journal.Glued.{replay_glued}
use openmemory.Engine.Journal.Unreadable.{replay_unreadable}
use openmemory.Engine.Journal.Applied.{replay_again}
use openmemory.Engine.Journal.Written.{append_all, no_bytes}
use openmemory.Engine.Journal.Replay.{above, records_in}
use openmemory.Engine.Shard.{
  Shard, from_request, group_requests, submit, begin_drain, finish_drain, start,
}
use openmemory.Engine.Shard.Sound.{requests}
use openmemory.Engine.Shard.Grouping.{gathered, group_requests-gathered}
use openmemory.Engine.Shard.Reach.{Reach, fresh}
use openmemory.Engine.Shard.Quiesce.{takes_all}
use mathlib.Core.List.{reverse-cons}

-- A field: its numbers far above the marks, and a mark behind them.
abbrev field : List ℕ → List ℕ → List ℕ
field [] rest = 150 ∷ rest
field (x ∷ xs) rest = (x + 200) ∷ field xs rest

chunks : List ℕ → List ℕ → List (List ℕ)
chunks start [] = []
chunks start (c ∷ cs) =
    let ended = chunks [] cs in
    let longer = chunks (start ++ ((c - 200) ∷ [])) cs in
    if eqb c 150 then start ∷ ended else longer

chunks-field :
    (start xs rest : List ℕ) → chunks start (field xs rest) ≡ (start ++ xs) ∷ chunks [] rest
unfolding chunks
chunks-field start [] rest = rw (append-nil start) refl
chunks-field start (x ∷ xs) rest =
    let no_mark : eqb (x + 200) 150 ≡ false = ground arith in
    let back : x + 200 - 200 ≡ x = omega arith in
    rw (no_mark, back, chunks-field (start ++ (x ∷ [])) xs rest, append_assoc start (x ∷ []) xs)
      refl

abbrev Request : Type 0
Request = RememberRequest ℕ ℕ

abbrev body : JournalRecord Request → List ℕ
body r = field (r.seq ∷ []) (
    field r.req.name (
      field (r.req.entity_type ∷ [])
        (field r.req.observations (field r.req.relations (field r.req.source (125 ∷ []))))))

rebuild : List (List ℕ) → Option (JournalRecord Request)
rebuild ((n ∷ []) ∷ name ∷ (kind ∷ []) ∷ os ∷ rs ∷ source ∷ []) = some (record {
  seq = n;
  req = record {
    name = name;
    entity_type = kind;
    observations = os;
    relations = rs;
    source = source;
  };
})
rebuild _ = none

read_line : Text → Option (JournalRecord Request)
unfolding rebuild chunks
read_line (c ∷ cs) = if eqb c 123 then rebuild (chunks [] cs) else none
read_line [] = none

-- A byte that ends no line and is no carriage return.
abbrev IsSafe : ℕ → Type 0
IsSafe b = IsInner b × (eqb b 13 ≡ false)

field-IsSafe : (xs rest : List ℕ) → All IsSafe rest → All IsSafe (field xs rest)
field-IsSafe [] rest h = ((refl, refl), h)
field-IsSafe (x ∷ xs) rest h = ((ground arith, ground arith), field-IsSafe xs rest h)

body-IsSafe : (r : JournalRecord Request) → All IsSafe (body r)
body-IsSafe r =
    let last : All IsSafe (125 ∷ []) = ((refl, refl), tt) in
    let source = field-IsSafe r.req.source _ last in
    let relations = field-IsSafe r.req.relations _ source in
    let observations = field-IsSafe r.req.observations _ relations in
    let kind = field-IsSafe (r.req.entity_type ∷ []) _ observations in
    let name = field-IsSafe r.req.name _ kind in field-IsSafe (r.seq ∷ []) _ name

strip_return-safe : (bs : List ℕ) → All IsSafe bs → strip_return bs ≡ bs
unfolding strip_return
strip_return-safe [] h = refl
strip_return-safe (b ∷ []) h = rw (h.0.1) refl
strip_return-safe (b ∷ c ∷ bs) h = ap (λ t. b ∷ t) (strip_return-safe (c ∷ bs) h.1)

All-IsInner : (bs : List ℕ) → All IsSafe bs → All IsInner bs
All-IsInner [] h = tt
All-IsInner (b ∷ bs) h = (h.0.0, All-IsInner bs h.1)

skip_stops : (xs : List ℕ) → (y : ℕ) × (ys : List ℕ) × (skip_whitespace (xs ++ (123 ∷ [])) ≡ y ∷ ys)
unfolding skip_whitespace is_whitespace
skip_stops [] = (123, [], refl)
skip_stops (x ∷ xs) = elim (Bool-cases (is_whitespace x)) [
  | inl blank ↦ let (y, ys, e) = skip_stops xs in (y, ys, rw (skip_whitespace, blank) e)
  | inr solid ↦ (x, xs ++ (123 ∷ []), rw (skip_whitespace, solid) refl)
]

ends_full : (xs : List ℕ) (y : ℕ) → is_empty (xs ++ (y ∷ [])) ≡ false
ends_full [] y = refl
ends_full (x ∷ xs) y = refl

line_full : (rest : List ℕ) → is_empty (trim (123 ∷ rest)) ≡ false
unfolding trim skip_whitespace is_whitespace
line_full rest =
    let (y, ys, e) = skip_stops (reverse rest) in
    rw (reverse-cons 123 rest, e, reverse-cons y ys) (ends_full (reverse ys) y)

read_line-body : (r : JournalRecord Request) → read_line (123 ∷ body r) ≡ some r
unfolding read_line
read_line-body r =
    rw
      (
        chunks-field [] (r.seq ∷ []),
        chunks-field [] r.req.name,
        chunks-field [] (r.req.entity_type ∷ []),
        chunks-field [] r.req.observations,
        chunks-field [] r.req.relations,
        chunks-field [] r.req.source,
      )
      refl

abbrev example_serde : Serde Request
example_serde = record {
  to_string = λ r. some (123 ∷ body r);
  from_utf8 = λ bytes. some bytes;
  from_str = read_line;
}

example_laws : SerdeLaws example_serde
example_laws = record {
  line_of = λ r. 123 ∷ body r;
  text_of = λ r. 123 ∷ body r;
  to_string_lem = λ r. refl;
  one_line = λ r. (refl, All-IsInner (body r) (body-IsSafe r));
  no_return = λ r. strip_return-safe (123 ∷ body r) ((refl, refl), body-IsSafe r);
  utf8 = λ r. refl;
  not_blank = λ r. line_full (body r);
  from_str_lem = λ r. read_line-body r;
}

instance abbrev engine_externals : Externals
engine_externals = record { blake3 = λ bs. bs; hyphenated = λ u. u ∷ []; to_lowercase = λ t. t }

abbrev about : ℕ → ℕ → Request
about name fact = record {
  name = name ∷ [];
  entity_type = 1;
  observations = fact ∷ [];
  relations = [];
  source = [];
}

abbrev numbered_records : List (JournalRecord Request)
numbered_records = record { seq = 4; req = about 1 10 } ∷ record { seq = 5; req = about 2 20 } ∷ []

abbrev committed : Store ℕ ℕ
committed = record { checkpoint_row = some 4; writes = about 1 10 ∷ [] }

group_requests-gathered_example :
    (gathered
        (λ r. r.observations)
        (from_request (about 1 10))
        (group_requests [] (about 1 10 ∷ about 2 20 ∷ about 1 30 ∷ []))
      ≡ gathered
          (λ r. r.observations)
          (from_request (about 1 10))
          (about 1 10 ∷ about 2 20 ∷ about 1 30 ∷ []))
    × (gathered
          (λ r. r.relations)
          (from_request (about 1 10))
          (group_requests [] (about 1 10 ∷ about 2 20 ∷ about 1 30 ∷ []))
        ≡ gathered
            (λ r. r.relations)
            (from_request (about 1 10))
            (about 1 10 ∷ about 2 20 ∷ about 1 30 ∷ []))
group_requests-gathered_example =
    group_requests-gathered (from_request (about 1 10)) (about 1 10 ∷ about 2 20 ∷ about 1 30 ∷ [])

file_of_two : List ℕ
unfolding append_all flush
file_of_two = (flush complete (append_all example_serde no_bytes numbered_records)).file

left_by : Attempt (Replayed ℕ ℕ) → Replayed ℕ ℕ
left_by (success out) = out
left_by (failure _) = record { store = committed; last_seen = 0; replayed = 0 }

after_replay : Replayed ℕ ℕ
unfolding replay left_by file_of_two
after_replay = left_by (replay example_serde taken (contents file_of_two) committed)

replay_again_example :
    (after_replay.store.writes
      ≡ committed.writes
        ++ above (checkpoint_of committed) (records_in example_serde (lines [] file_of_two)))
    × (after_replay.replayed
        ≡ length
            (above (checkpoint_of committed) (records_in example_serde (lines [] file_of_two))))
    × (replay example_serde refused (contents file_of_two) after_replay.store
        ≡ success (record {
          store = after_replay.store;
          last_seen = after_replay.last_seen;
          replayed = 0;
        }))
unfolding after_replay replay file_of_two read_line chunks rebuild left_by trim
replay_again_example =
    replay_again example_serde taken refused file_of_two committed after_replay refl

-- One request is committed, a second is drained, and the process ends before the commit.
abbrev drained_one : Shard ℕ ℕ
drained_one =
    finish_drain takes_all
      (begin_drain complete (submit example_serde complete complete fresh (about 1 10)))

abbrev drained_two : Shard ℕ ℕ
drained_two = begin_drain complete (submit example_serde complete complete drained_one (about 2 20))

shard_of : Attempt (Shard ℕ ℕ) → Shard ℕ ℕ
shard_of (success s) = s
shard_of (failure _) = fresh

revived : Shard ℕ ℕ
unfolding shard_of start
revived = shard_of (start example_serde taken (contents drained_two.journal.file) drained_two.store)

-- A store that rolls back every batch of more than one group.
abbrev singles_only : Store ℕ ℕ → List Request → Option ℕ → Fate
singles_only store (r ∷ s ∷ rs) checkpoint = refused
singles_only store _ checkpoint = taken

abbrev both_drained : Shard ℕ ℕ
both_drained = begin_drain complete (
    submit example_serde complete complete
      (submit example_serde complete complete fresh (about 1 10)) (about 2 20))

-- The bookkeeping behind the commit of the batch fails: the retry applies its one request again.
abbrev unmarked_once : Store ℕ ℕ → List Request → Option ℕ → Fate
unmarked_once store requests checkpoint = elim store.checkpoint_row [
  | none ↦ unmarked
  | some _ ↦ taken
]

applied_twice :
    (finish_drain unmarked_once (
      begin_drain complete
        (submit example_serde complete complete fresh (about 1 10)))).store.writes
    ≡ about 1 10 ∷ about 1 10 ∷ []
unfolding fresh submit begin_drain finish_drain
applied_twice = refl

-- A reader that knows ASCII only, and the first byte of a longer character at the end of a file.
abbrev ascii_serde : Serde Request
ascii_serde = record example_serde {
  from_utf8 = λ bytes. if any (leb 128) bytes then none else some bytes;
}

replay_unreadable_example :
    replay ascii_serde taken (contents (65 ∷ 10 ∷ 195 ∷ [])) committed ≡ failure io_error
unfolding lines
replay_unreadable_example =
    replay_unreadable ascii_serde taken (65 ∷ 10 ∷ 195 ∷ []) committed ((65 ∷ []) ∷ []) []
      (195 ∷ []) refl refl

abbrev third : JournalRecord Request
third = record { seq = 6; req = about 3 30 }

replay_glued_example :
    (out : Replayed ℕ ℕ) × (replay example_serde taken
        (contents
          (flush complete (
            append_record example_serde complete complete
              (record {
                file =
                    (flush complete (append_all example_serde no_bytes numbered_records)).file
                    ++ (123 ∷ []);
                buffered = [];
              })
              third.seq
              third.req)).file)
        committed
      ≡ success out)
    × (out.store.writes ≡ committed.writes ++ above (checkpoint_of committed) numbered_records)
    × (out.replayed ≡ length (above (checkpoint_of committed) numbered_records))
unfolding read_line chunks rebuild strip_return example_laws
replay_glued_example =
    replay_glued example_serde example_laws numbered_records (123 ∷ []) third
      (123 ∷ 123 ∷ body third) committed (refl, tt) refl refl refl
