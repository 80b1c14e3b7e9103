-- ===== src/Watch/Glob/Loop.antt =====
-- The first loop of `matches_simple_glob`, round by round: what a round keeps, and that rounds run out.
use openmemory.Prelude.{
  ℕ, zero, suc, ◌+◌, ◌≤◌, ◌<◌, ◌≡◌, refl, ap, sym, ◌∙◌, inl, inr, Bool, true, false, ◌||◌, Option,
  none, some, List, [], ◌∷◌, ◌++◌, length, length-append, drop, drop-drop, drop-nil, subst,
  drop-cases, drop_all, All, All-append, eqb, append_assoc, arith,
}
use openmemory.Watch.Glob.{Cursor, star, takes, is_star, only_stars}
use openmemory.Watch.Glob.Reference.{
  IsPlain, glob_matches, some_suffix, first_and_rest, some_suffix-drop, some_suffix-true,
  some_suffix-split, glob_matches-append,
}

-- The second loop decides whether what is left of the pattern takes the empty name.
pub only_stars_lem :
    (rounds : ℕ) (pattern : List ℕ) (i : ℕ)
    → length pattern ≤ rounds + i
    → i ≤ length pattern
    → only_stars rounds pattern i ≡ glob_matches (drop i pattern) []
unfolding only_stars is_star glob_matches some_suffix first_and_rest
only_stars_lem zero pattern i enough inside = rw (drop_all i pattern (omega arith)) (ground arith)
only_stars_lem (suc rounds) pattern i enough inside = elim (drop-cases i pattern) [
  | inl (outside, gone, at_end) ↦ rw (outside, gone) (ground arith)
  | inr (p, here, split, below) ↦
      let tail = only_stars_lem rounds pattern (i + 1) (omega arith) (omega arith) in
      rw (here, split) (ground (arith, tail))
]

or_absorbs : (a b : Bool) → (b ≡ true → a ≡ true) → (a || b) ≡ a
or_absorbs true b h = refl
or_absorbs false true h = sym (h refl)
or_absorbs false false h = refl

unfoldable pub taken : Cursor → Cursor
taken s = record s { pat_idx = s.pat_idx + 1; name_idx = s.name_idx + 1 }

unfoldable pub starred : Cursor → Cursor
starred s = record s {
  pat_idx = s.pat_idx + 1;
  star_idx = some s.pat_idx;
  star_match_idx = s.name_idx;
}

unfoldable pub moved : ℕ → Cursor → Cursor
moved i s = record s {
  pat_idx = i + 1;
  star_match_idx = s.star_match_idx + 1;
  name_idx = s.star_match_idx + 1;
}

takes-IsPlain : (p c : ℕ) → IsPlain c → takes (some p) c ≡ true → IsPlain p
unfolding takes
takes-IsPlain p c plain h = ground arith

glob_matches_taken :
    (p c : ℕ) (ps cs : List ℕ)
    → IsPlain c
    → takes (some p) c ≡ true
    → glob_matches (p ∷ ps) (c ∷ cs) ≡ glob_matches ps cs
unfolding takes glob_matches first_and_rest
glob_matches_taken p c ps cs plain h = ground (arith, takes-IsPlain p c plain h)

pub glob_matches_refused :
    (p c : ℕ) (ps cs : List ℕ)
    → IsPlain p
    → takes (some p) c ≡ false
    → glob_matches (p ∷ ps) (c ∷ cs) ≡ false
unfolding takes glob_matches first_and_rest
glob_matches_refused p c ps cs plain h = ground arith

-- A star matches no byte, or one more.
glob_matches-star :
    (p c : ℕ) (ps cs : List ℕ)
    → eqb p star ≡ true
    → glob_matches (p ∷ ps) (c ∷ cs)
      ≡ (glob_matches ps (c ∷ cs) || some_suffix (glob_matches ps) cs)
unfolding glob_matches some_suffix
glob_matches-star p c ps cs is = ground arith

star-drop :
    (p n : ℕ) (ps xs : List ℕ)
    → eqb p star ≡ true
    → glob_matches (p ∷ ps) (drop n xs) ≡ true
    → glob_matches (p ∷ ps) xs ≡ true
unfolding glob_matches
star-drop p n ps xs is h =
    let q : some_suffix (glob_matches ps) (drop n xs) ≡ true = ground arith in
    let r = some_suffix-drop (glob_matches ps) n xs q in ground arith

module _ (pattern name : List ℕ) where
  -- What the last star may still do.
  unfoldable pub later : Option ℕ → ℕ → Bool
  later none m = false
  later (some i) m = some_suffix (glob_matches (drop (i + 1) pattern)) (drop (m + 1) name)

  -- What is still to be found out in a state of the loop.
  unfoldable pub verdict : Cursor → Bool
  unfolding later
  verdict s =
      glob_matches (drop s.pat_idx pattern) (drop s.name_idx name)
      || later s.star_idx s.star_match_idx

  -- The part of the pattern between the last star and the present position.
  abbrev pub Since : Option ℕ → Cursor → Type 0
  Since none s = s.star_match_idx ≡ 0
  Since (some i) s =
      (front : List ℕ) × All IsPlain front
      × (drop (i + 1) pattern ≡ front ++ drop s.pat_idx pattern)
      × (s.name_idx ≡ s.star_match_idx + length front)
      × (i + 1 ≤ s.pat_idx)

  abbrev pub IsOpen : Cursor → Type 0
  IsOpen s =
      Since s.star_idx s
      × (s.pat_idx ≤ length pattern)
      × (s.name_idx ≤ length name)
      × (s.star_match_idx ≤ s.name_idx)

  -- A byte of the name was used up by a byte of the pattern that is no star.
  pub taken_keeps :
      (s : Cursor) (p c : ℕ)
      → IsPlain c
      → takes (some p) c ≡ true
      → drop s.pat_idx pattern ≡ p ∷ drop (s.pat_idx + 1) pattern
      → s.pat_idx < length pattern
      → drop s.name_idx name ≡ c ∷ drop (s.name_idx + 1) name
      → s.name_idx < length name
      → IsOpen s
      → IsOpen (taken s) × (verdict (taken s) ≡ verdict s)
  unfolding taken verdict
  taken_keeps s p c plain h here inside at c_inside (since, in_pattern, in_name, order) = (
    (go s.star_idx since, omega arith, omega arith, omega arith),
    rw (here, at, glob_matches_taken p c _ _ plain h) refl,
  )
    where
      go : (o : Option ℕ) → Since o s → Since o (taken s)
      go none e = e
      go (some i) (front, plain_front, e, n, m) = (
        front ++ (p ∷ []),
        All-append IsPlain front (p ∷ []) plain_front (takes-IsPlain p c plain h, tt),
        e ∙ ap (λ xs. front ++ xs) here ∙ sym (append_assoc front (p ∷ []) _),
        omega (arith, length-append front (p ∷ [])),
        omega arith,
      )

  -- Skipping the bytes that the pattern used since the last star, from a later start.
  later_start :
      (s : Cursor) (front : List ℕ) (k : ℕ)
      → s.name_idx ≡ s.star_match_idx + length front
      → drop (length front) (drop k (drop (s.star_match_idx + 1) name))
        ≡ drop (k + 1) (drop s.name_idx name)
  later_start s front k n =
      let e : s.star_match_idx + 1 + (k + length front) ≡ s.name_idx + (k + 1) = omega arith in
      drop-drop (length front) k _
      ∙ drop-drop (k + length front) (s.star_match_idx + 1) name
      ∙ ap (λ j. drop j name) e
      ∙ sym (drop-drop (k + 1) s.name_idx name)

  -- A success of the last star from a later start uses the rest of the pattern on a later suffix.
  pub later-true :
      (s : Cursor) (o : Option ℕ)
      → Since o s
      → later o s.star_match_idx ≡ true
      → (k : ℕ) × (glob_matches (drop s.pat_idx pattern) (drop (k + 1) (drop s.name_idx name))
          ≡ true)
  unfolding later
  later-true s none e h = cc
  later-true s (some i) (front, plain, e, n, m) h =
      let (k, found) =
        some_suffix-true (glob_matches (drop (i + 1) pattern)) (drop (s.star_match_idx + 1) name)
          h in
      let skipped =
        glob_matches-append front (drop s.pat_idx pattern)
          (drop k (drop (s.star_match_idx + 1) name)) plain (rw e at found) in
      (k, rw (later_start s front k n) at skipped)

  verdict-starred :
      (s : Cursor) (p c : ℕ)
      → eqb p star ≡ true
      → drop s.pat_idx pattern ≡ p ∷ drop (s.pat_idx + 1) pattern
      → drop s.name_idx name ≡ c ∷ drop (s.name_idx + 1) name
      → Since s.star_idx s
      → verdict (starred s) ≡ verdict s
  unfolding starred verdict later
  verdict-starred s p c is here at since =
      rw (here, at)
        (sym (glob_matches-star p c _ _ is)
          ∙ sym (
              or_absorbs _ _ (λ h.
                let (k, found) = later-true s s.star_idx since h in
                star-drop p (k + 1) _ _ is (rw (here, at) at found))))

  pub starred_keeps :
      (s : Cursor) (p c : ℕ)
      → eqb p star ≡ true
      → drop s.pat_idx pattern ≡ p ∷ drop (s.pat_idx + 1) pattern
      → s.pat_idx < length pattern
      → drop s.name_idx name ≡ c ∷ drop (s.name_idx + 1) name
      → IsOpen s
      → IsOpen (starred s) × (verdict (starred s) ≡ verdict s)
  unfolding starred
  starred_keeps s p c is here inside at (since, in_pattern, in_name, order) = (
    (([], tt, refl, omega arith, omega arith), omega arith, omega arith, omega arith),
    verdict-starred s p c is here at since,
  )

  -- A star is where the search goes on when nothing matches: one byte further.
  pub moved_keeps :
      (s : Cursor) (i : ℕ)
      → s.star_idx ≡ some i
      → glob_matches (drop s.pat_idx pattern) (drop s.name_idx name) ≡ false
      → s.name_idx < length name
      → IsOpen s
      → IsOpen (moved i s) × (verdict (moved i s) ≡ verdict s)
  unfolding moved verdict later
  moved_keeps s i e refused inside (since, in_pattern, in_name, order) =
      let (front, plain, _, n, m) = subst (λ o. Since o s) e since in
      let split =
        some_suffix-split (glob_matches (drop (i + 1) pattern))
          (drop (s.star_match_idx + 1) name) in
      let next = drop-drop 1 (s.star_match_idx + 1) name in
      (
        (rw e ([], tt, refl, omega arith, omega arith), omega arith, omega arith, omega arith),
        rw (e, refused, split, next) refl,
      )

  -- Without a star nothing is left to try.
  pub verdict_stuck :
      (s : Cursor)
      → s.star_idx ≡ none
      → glob_matches (drop s.pat_idx pattern) (drop s.name_idx name) ≡ false
      → verdict s ≡ false
  unfolding verdict later
  verdict_stuck s e refused = rw (e, refused) refl

  -- When the name is used up the last star has nothing to offer.
  pub verdict_end :
      (s : Cursor)
      → IsOpen s
      → drop s.name_idx name ≡ []
      → verdict s ≡ glob_matches (drop s.pat_idx pattern) []
  unfolding verdict
  verdict_end s (since, _, _, _) e = rw e (
      or_absorbs _ _ (λ h.
        let (k, found) = later-true s s.star_idx since h in rw (e, drop-nil (k + 1)) at found))
