-- ===== src/Engine/Shard/Sound.antt =====
-- What holds of a shard between any two steps: sequence numbers count the accepted requests, each of
-- them is settled, being drained or queued, and the journal holds every one that is not settled.
use openmemory.Prelude.{
  ℕ, ◌+◌, ◌≤◌, Bool, true, false, append-nil, append_assoc, reverse, List, [], ◌∷◌, ◌++◌, All, map,
  ◌≡◌, refl, sym, ap, ◌∙◌, subst, map-append, if◌then◌else◌, arith,
}
use openmemory.Text.{Externals}
use mathlib.Core.List.{reverse-cons}
use openmemory.Engine.Batch.{RememberRequest, checkpoint_of}
use openmemory.Engine.Journal.{complete, JournalRecord, Serde, Journal, append_record}
use openmemory.Engine.Journal.Lines.{SerdeLaws, written, written-append, append_record-written}
use openmemory.Engine.Shard.{DrainGroupKey, Shard, last_seq_of}
use openmemory.Engine.Shard.Grouping.{gathered}

-- A request that a drain or a replay has decided on: it is in the store, or it was rejected.
pub record Settled (O R : Type 0) : Type 0 where
  pub seq : ℕ
  pub request : RememberRequest O R
  pub applied : Bool

-- An entry of the queue.
abbrev pub Numbered : Type 0 → Type 0 → Type 0
Numbered O R = ℕ × RememberRequest O R

module _ {O R : Type 0} where
  -- The numbers of the list are those after `d`, one after the other, up to `n`.
  abbrev pub Follows : ℕ → List (Numbered O R) → ℕ → Type 0
  Follows d [] n = d ≡ n
  Follows d (x ∷ xs) n = (x.0 ≡ d + 1) × Follows (d + 1) xs n

  pub Follows-append :
      (d m n : ℕ) (xs ys : List (Numbered O R))
      → Follows d xs m
      → Follows m ys n
      → Follows d (xs ++ ys) n
  Follows-append d m n [] ys h k = subst (λ i. Follows i ys n) (sym h) k
  Follows-append d m n (x ∷ xs) ys h k = (h.0, Follows-append (d + 1) m n xs ys h.1 k)

  pub Follows-split :
      (d n : ℕ) (xs ys : List (Numbered O R))
      → Follows d (xs ++ ys) n
      → (m : ℕ) × Follows d xs m × Follows m ys n
  Follows-split d n [] ys h = (d, refl, h)
  Follows-split d n (x ∷ xs) ys h =
      let (m, front, back) = Follows-split (d + 1) n xs ys h.1 in (m, (h.0, front), back)

  pub Follows-le : (d n : ℕ) (xs : List (Numbered O R)) → Follows d xs n → d ≤ n
  Follows-le d n [] h = omega arith
  Follows-le d n (x ∷ xs) h = omega (arith, Follows-le (d + 1) n xs h.1)

  pub Follows-unique :
      (d m n : ℕ) (xs : List (Numbered O R)) → Follows d xs m → Follows d xs n → m ≡ n
  Follows-unique d m n [] h k = sym h ∙ k
  Follows-unique d m n (x ∷ xs) h k = Follows-unique (d + 1) m n xs h.1 k.1

  pub last_seq_of-Follows :
      (d n : ℕ) (x : Numbered O R) (xs : List (Numbered O R))
      → Follows d (x ∷ xs) n
      → last_seq_of (x ∷ xs) ≡ n
  unfolding last_seq_of
  last_seq_of-Follows d n x [] h = omega arith
  last_seq_of-Follows d n x (y ∷ ys) h = last_seq_of-Follows (d + 1) n y ys h.1

  abbrev pub IsAtMost : ℕ → Numbered O R → Type 0
  IsAtMost c x = x.0 ≤ c

  pub Follows-IsAtMost : (d n : ℕ) (xs : List (Numbered O R)) → Follows d xs n → All (IsAtMost n) xs
  Follows-IsAtMost d n [] h = tt
  Follows-IsAtMost d n (x ∷ xs) h =
      (omega (arith, Follows-le (d + 1) n xs h.1), Follows-IsAtMost (d + 1) n xs h.1)

  abbrev pub requests : List (Numbered O R) → List (RememberRequest O R)
  requests = map (λ x. x.1)

  abbrev pub records : List (Numbered O R) → List (JournalRecord (RememberRequest O R))
  records = map (λ x. record { seq = x.0; req = x.1 })

  abbrev pub numbered : List (Settled O R) → List (Numbered O R)
  numbered = map (λ s. (s.seq, s.request))

  abbrev pub applied_of : List (Settled O R) → List (RememberRequest O R)
  applied_of [] = []
  applied_of (s ∷ ss) = let rest = applied_of ss in if s.applied then s.request ∷ rest else rest

  -- The decision on a whole batch.
  abbrev pub settle : Bool → List (Numbered O R) → List (Settled O R)
  settle applied = map (λ x. record { seq = x.0; request = x.1; applied = applied })

  pub numbered-settle : (b : Bool) (xs : List (Numbered O R)) → numbered (settle b xs) ≡ xs
  numbered-settle b [] = refl
  numbered-settle b (x ∷ xs) = ap (λ t. x ∷ t) (numbered-settle b xs)

  pub applied_of-append :
      (xs ys : List (Settled O R)) → applied_of (xs ++ ys) ≡ applied_of xs ++ applied_of ys
  applied_of-append [] ys = refl
  applied_of-append (x ∷ xs) ys = ground (arith, applied_of-append xs ys)

  pub applied_of-settle : (xs : List (Numbered O R)) → applied_of (settle true xs) ≡ requests xs
  applied_of-settle [] = refl
  applied_of-settle (x ∷ xs) = ap (λ t. x.1 ∷ t) (applied_of-settle xs)

  -- The numbers of the requests that were rejected.
  abbrev pub rejected_of : List (Settled O R) → List ℕ
  rejected_of [] = []
  rejected_of (s ∷ ss) = let rest = rejected_of ss in if s.applied then rest else s.seq ∷ rest

  pub rejected_of-append :
      (xs ys : List (Settled O R)) → rejected_of (xs ++ ys) ≡ rejected_of xs ++ rejected_of ys
  rejected_of-append [] ys = refl
  rejected_of-append (x ∷ xs) ys = ground (arith, rejected_of-append xs ys)

  pub rejected_of-settle : (xs : List (Numbered O R)) → rejected_of (settle true xs) ≡ []
  rejected_of-settle [] = refl
  rejected_of-settle (x ∷ xs) = rejected_of-settle xs

  -- What was rejected is what the table of failures has, behind what the tables of earlier processes had.
  abbrev pub IsReported : List ℕ → List (Settled O R) → Shard O R → Type 0
  IsReported earlier settled s = rejected_of settled ≡ earlier ++ reverse s.failures

  pub IsReported-applied :
      (earlier : List ℕ) (settled : List (Settled O R)) (xs : List (Numbered O R)) (s : Shard O R)
      → IsReported earlier settled s
      → IsReported earlier (settled ++ settle true xs) s
  IsReported-applied earlier settled xs s h =
      rejected_of-append settled (settle true xs)
      ∙ ap (λ t. rejected_of settled ++ t) (rejected_of-settle xs)
      ∙ append-nil (rejected_of settled)
      ∙ h

  pub IsReported-rejected :
      (earlier : List ℕ) (settled : List (Settled O R)) (x : Numbered O R) (s : Shard O R)
      → IsReported earlier settled s
      → IsReported earlier
          (settled ++ settle false (x ∷ []))
          (record s { failures = x.0 ∷ s.failures })
  IsReported-rejected earlier settled x s h =
      rejected_of-append settled (settle false (x ∷ []))
      ∙ ap (λ t. t ++ (x.0 ∷ [])) h
      ∙ append_assoc earlier (reverse s.failures) (x.0 ∷ [])
      ∙ ap (λ t. earlier ++ t) (sym (reverse-cons x.0 s.failures))

module _ ⦃ext : Externals⦄ {O R : Type 0} where
  -- Two lists of groups carry the same about each entity, in the same order.
  abbrev pub Agrees : List (RememberRequest O R) → List (RememberRequest O R) → Type 0
  Agrees xs ys =
      (k : DrainGroupKey)
      → (gathered (λ r. r.observations) k xs ≡ gathered (λ r. r.observations) k ys)
        × (gathered (λ r. r.relations) k xs ≡ gathered (λ r. r.relations) k ys)

module _ ⦃ext : Externals⦄ {O R : Type 0} (serde : Serde (RememberRequest O R))
    (laws : SerdeLaws serde) where
  -- The journal lines of the entries.
  unfoldable pub bytes_of : List (Numbered O R) → List ℕ
  bytes_of xs = written serde laws (records xs)

  pub bytes_of-append :
      (xs ys : List (Numbered O R)) → bytes_of (xs ++ ys) ≡ bytes_of xs ++ bytes_of ys
  unfolding bytes_of
  bytes_of-append xs ys =
      ap (written serde laws) (map-append _ xs ys)
      ∙ written-append serde laws (records xs) (records ys)

  pub append_record-bytes_of :
      (journal : Journal) (seq : ℕ) (req : RememberRequest O R)
      → append_record serde complete complete journal seq req
        ≡ record journal { buffered = journal.buffered ++ bytes_of ((seq, req) ∷ []) }
  unfolding bytes_of
  append_record-bytes_of journal seq req =
      append_record-written serde laws journal (record { seq = seq; req = req })

  -- The file holds the requests of the drain and of the queue, but for those that are not written yet.
  abbrev pub IsJournaled :
      ℕ → Journal → List (Numbered O R) → List (Numbered O R) → List (Numbered O R) → Type 0
  IsJournaled c journal unwritten drained buf =
      (old queued : List (Numbered O R)) × (journal.file ≡ bytes_of (old ++ (drained ++ queued)))
      × (journal.buffered ≡ bytes_of unwritten)
      × (buf ≡ queued ++ unwritten)
      × All (IsAtMost c) old

  -- With `c` in place of the watermark, and with `drained` for what the drain has left to do.
  abbrev pub Sound :
      List (Settled O R) → ℕ → List (Numbered O R) → List (Numbered O R) → Shard O R → Type 0
  Sound settled c drained unwritten s =
      Follows 0 (numbered settled) c
      × Follows c (drained ++ s.buf) s.next_seq
      × (checkpoint_of s.store ≡ c)
      × Agrees s.store.writes (applied_of settled)
      × IsJournaled c s.journal unwritten drained s.buf
