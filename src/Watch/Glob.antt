-- ===== src/Watch/Glob.antt =====
-- `matches_simple_glob` of `crates/openmemory-watch/src/events.rs`, over the bytes of a pattern and of a name.
-- The loop over the name runs on fuel and answers `none` when the fuel is used up;
-- `fuel_for` is what the theorem of `Glob.Correct` shows to be enough.
pub mod Reference
mod Loop
pub mod Correct
use openmemory.Prelude.{
  ℕ, zero, suc, ◌+◌, ◌*◌, Bool, true, false, ◌||◌, Option, none, some, List, [], ◌∷◌, length,
  get_elem?, ltb, eqb, if◌then◌else◌,
}

-- `b'*'` and `b'?'`
abbrev pub star : ℕ
star = 42

abbrev pub question : ℕ
question = 63

-- The variables of the loop.
pub record Cursor : Type 0 where
  pub pat_idx : ℕ
  pub name_idx : ℕ
  pub star_idx : Option ℕ
  pub star_match_idx : ℕ

-- `pat_idx < pattern.len() && (pattern[pat_idx] == b'?' || pattern[pat_idx] == name[name_idx])`
unfoldable pub takes : Option ℕ → ℕ → Bool
takes none c = false
takes (some p) c = eqb p question || eqb p c

-- `pat_idx < pattern.len() && pattern[pat_idx] == b'*'`
unfoldable pub is_star : Option ℕ → Bool
is_star none = false
is_star (some p) = eqb p star

-- One round of the first loop on the byte `c` at `name_idx`; `none` is `return false`.
unfoldable pub round : List ℕ → ℕ → Cursor → Option Cursor
unfolding takes is_star
round pattern c s =
    if takes (get_elem? pattern s.pat_idx) c
    then some (record s { pat_idx = s.pat_idx + 1; name_idx = s.name_idx + 1 })
    else if is_star (get_elem? pattern s.pat_idx)
    then some (record s {
      pat_idx = s.pat_idx + 1;
      star_idx = some s.pat_idx;
      star_match_idx = s.name_idx;
    })
    else elim s.star_idx [
      | none ↦ none
      | some i ↦ some (record s {
        pat_idx = i + 1;
        star_match_idx = s.star_match_idx + 1;
        name_idx = s.star_match_idx + 1;
      })
    ]

-- The second loop and the test after it, with the count of rounds it may make.
unfoldable pub only_stars : ℕ → List ℕ → ℕ → Bool
unfolding is_star
only_stars zero pattern pat_idx = eqb pat_idx (length pattern)
only_stars (suc rounds) pattern pat_idx =
    let rest = only_stars rounds pattern (pat_idx + 1) in
    if is_star (get_elem? pattern pat_idx) then rest else eqb pat_idx (length pattern)

-- The first loop, and what follows it when the name is used up.
unfoldable pub walk : ℕ → List ℕ → List ℕ → Cursor → Option Bool
unfolding round only_stars
walk zero pattern name s = none
walk (suc fuel) pattern name s = elim (get_elem? name s.name_idx) [
  | none ↦ some (only_stars (length pattern) pattern s.pat_idx)
  | some c ↦ elim (round pattern c s) [ none ↦ some false | some s' ↦ walk fuel pattern name s' ]
]

unfoldable pub start : Cursor
start = record { pat_idx = 0; name_idx = 0; star_idx = none; star_match_idx = 0 }

-- Rounds between two moves of the last star, times the moves.
unfoldable pub fuel_for : List ℕ → List ℕ → ℕ
fuel_for pattern name = length name * (length pattern + 1) + length pattern + 1

unfoldable pub matches_simple_glob : List ℕ → List ℕ → Option Bool
unfolding walk start fuel_for
matches_simple_glob pattern name = walk (fuel_for pattern name) pattern name start
