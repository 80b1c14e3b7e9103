-- ===== src/Watch/Examples.antt =====
-- The always-ignored pattern of editor swap files, at a name.
use openmemory.Prelude.{ℕ, Bool, true, false, List, [], ◌∷◌, some, ◌≡◌, refl}
use openmemory.Watch.Indexable.{is_runtime_indexable}
use openmemory.Text.{literal}
use openmemory.Watch.Glob.{matches_simple_glob}
use openmemory.Watch.Glob.Reference.{glob_matches}
use openmemory.Watch.Glob.Correct.{matches_simple_glob-glob_matches}

matches_simple_glob-glob_matches_example :
    matches_simple_glob (literal "*.swp") (literal "a.b.swp")
    ≡ some (glob_matches (literal "*.swp") (literal "a.b.swp"))
matches_simple_glob-glob_matches_example =
    matches_simple_glob-glob_matches (literal "*.swp") (literal "a.b.swp")
      (refl, (refl, (refl, (refl, (refl, (refl, (refl, tt)))))))

-- A `*` in the name is taken for the one of the pattern, so this swap file is not matched.
starred_name : matches_simple_glob (literal "*.swp") (literal "*a.swp") ≡ some false
unfolding matches_simple_glob
starred_name = refl

abbrev source_file : List (List ℕ)
source_file = literal "home" ∷ literal "src" ∷ literal "a.rs" ∷ []

abbrev every_name : List ℕ → Bool
every_name name = true

indexed :
    is_runtime_indexable every_name (literal ".RS" ∷ []) source_file (literal "home" ∷ []) ≡ true
unfolding is_runtime_indexable
indexed = refl
