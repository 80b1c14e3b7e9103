-- ===== src/Watch/Indexable.antt =====
-- `is_runtime_indexable` of `crates/openmemory-watch/src/events.rs`, with the lists and the test on extensions of
-- `lib.rs`. A path is its list of names, and a name its bytes; whether a name is UTF-8 is a parameter.
use openmemory.Prelude.{
  ℕ, ◌+◌, Bool, true, false, ◌&&◌, List, [], ◌∷◌, Option, none, some, any, map, leb, eqb,
  if◌then◌else◌,
}
use openmemory.Prelude.Order.{◌==◌, list_ord, nat_ord}
use openmemory.Text.{literal}
use openmemory.Watch.Glob.{matches_simple_glob}

unfoldable pub always_ignore_dirs : List (List ℕ)
always_ignore_dirs =
    literal ".git"
    ∷ literal "target"
    ∷ literal "node_modules"
    ∷ literal ".venv"
    ∷ literal "__pycache__"
    ∷ []

unfoldable pub always_ignore_globs : List (List ℕ)
always_ignore_globs =
    literal "*.lock"
    ∷ literal "*.lockb"
    ∷ literal "*.pyc"
    ∷ literal "*.pyo"
    ∷ literal "*.swp"
    ∷ literal "*.swo"
    ∷ literal "*.swpx"
    ∷ literal ".*.kate-swp"
    ∷ literal "*~"
    ∷ literal ".#*"
    ∷ literal "#*#"
    ∷ literal ".DS_Store"
    ∷ literal "watchexec.*.log"
    ∷ []

-- `Path::strip_prefix`
unfoldable pub strip_prefix : List (List ℕ) → List (List ℕ) → Option (List (List ℕ))
strip_prefix path [] = some path
strip_prefix [] (r ∷ root) = none
strip_prefix (p ∷ path) (r ∷ root) =
    let rest = strip_prefix path root in if p == r then rest else none

-- `Path::file_name`, of names that are no `.` or `..`
unfoldable pub file_name : List (List ℕ) → Option (List ℕ)
file_name [] = none
file_name (n ∷ []) = some n
file_name (n ∷ m ∷ ns) = file_name (m ∷ ns)

-- A loop that has run out of fuel counts as a match; it never does.
unfoldable pub is_match : Option Bool → Bool
is_match none = true
is_match (some b) = b

-- A name before and after its last dot.
unfoldable pub split_last_dot : List ℕ → Option (List ℕ × List ℕ)
split_last_dot [] = none
split_last_dot (b ∷ bs) = elim (split_last_dot bs) [
  | some parts ↦ some (b ∷ parts.0, parts.1)
  | none ↦ if eqb b 46 then some ([], bs) else none
]

-- `Path::extension`: a dot in front of the name starts no extension.
unfoldable pub extension : List ℕ → Option (List ℕ)
unfolding split_last_dot
extension name = elim (split_last_dot name) [
  | none ↦ none
  | some parts ↦ elim parts.0 [ [] ↦ none | _ ∷ _ ↦ some parts.1 ]
]

unfoldable pub to_ascii_lowercase : ℕ → ℕ
to_ascii_lowercase b = if leb 65 b && leb b 90 then b + 32 else b

-- `trim_start_matches('.')`
unfoldable pub trim_dots : List ℕ → List ℕ
trim_dots [] = []
trim_dots (b ∷ bs) = let rest = trim_dots bs in if eqb b 46 then rest else b ∷ bs

unfoldable pub eq_ignore_ascii_case : List ℕ → List ℕ → Bool
unfolding to_ascii_lowercase
eq_ignore_ascii_case a b = map to_ascii_lowercase a == map to_ascii_lowercase b

module _ (is_utf8 : List ℕ → Bool) (extensions : List (List ℕ)) where
  -- `path.extension().and_then(|e| e.to_str())`
  unfoldable pub text_extension : Option (List ℕ) → Option (List ℕ)
  unfolding extension
  text_extension none = none
  text_extension (some name) = elim (extension name) [
    | none ↦ none
    | some ext ↦ if is_utf8 ext then some ext else none
  ]

  unfoldable pub has_indexable_extension : List (List ℕ) → Bool
  unfolding text_extension file_name eq_ignore_ascii_case trim_dots
  has_indexable_extension path = elim (text_extension (file_name path)) [
    | none ↦ false
    | some ext ↦ any (λ allowed. eq_ignore_ascii_case ext (trim_dots allowed)) extensions
  ]

  unfoldable pub is_ignored_name : Option (List ℕ) → Bool
  unfolding matches_simple_glob always_ignore_globs is_match
  is_ignored_name none = false
  is_ignored_name (some name) =
      is_utf8 name && any (λ glob. is_match (matches_simple_glob glob name)) always_ignore_globs

  unfoldable pub is_runtime_indexable : List (List ℕ) → List (List ℕ) → Bool
  unfolding strip_prefix file_name is_ignored_name always_ignore_dirs has_indexable_extension
  is_runtime_indexable path root = elim (strip_prefix path root) [
    | none ↦ false
    | some rel ↦
        if any (λ name. any (λ d. d == name) always_ignore_dirs) rel
        then false
        else if is_ignored_name (file_name path)
        then false
        else has_indexable_extension path
  ]
