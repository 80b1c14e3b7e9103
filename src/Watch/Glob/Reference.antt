-- ===== src/Watch/Glob/Reference.antt =====
-- What a glob means, read off the pattern alone: `*` is any run of bytes, `?` any one byte, and any other byte itself.
use openmemory.Prelude.{
  ℕ, zero, suc, ◌≡◌, refl, Bool, true, false, ◌||◌, List, [], ◌∷◌, ◌++◌, length, drop, All, inl,
  inr, eqb, if◌then◌else◌, Bool-cases, arith,
}

unfoldable pub first_and_rest : ℕ → (List ℕ → Bool) → List ℕ → Bool
first_and_rest p rest [] = false
first_and_rest p rest (c ∷ cs) = if eqb p 63 || eqb p c then rest cs else false

unfoldable pub some_suffix : (List ℕ → Bool) → List ℕ → Bool
some_suffix f [] = f []
some_suffix f (c ∷ cs) = f (c ∷ cs) || some_suffix f cs

unfoldable pub glob_matches : List ℕ → List ℕ → Bool
unfolding first_and_rest some_suffix
glob_matches [] [] = true
glob_matches [] (c ∷ cs) = false
glob_matches (p ∷ ps) name =
    let rest = glob_matches ps in
    if eqb p 42 then some_suffix rest name else first_and_rest p rest name

-- A byte that is not the star.
abbrev pub IsPlain : ℕ → Type 0
IsPlain p = eqb p 42 ≡ false

pub some_suffix_head : (f : List ℕ → Bool) (xs : List ℕ) → f xs ≡ true → some_suffix f xs ≡ true
unfolding some_suffix
some_suffix_head f [] h = h
some_suffix_head f (x ∷ xs) h = rw h refl

pub some_suffix-drop :
    (f : List ℕ → Bool) (n : ℕ) (xs : List ℕ)
    → some_suffix f (drop n xs) ≡ true
    → some_suffix f xs ≡ true
unfolding some_suffix
some_suffix-drop f zero xs h = h
some_suffix-drop f (suc n) [] h = h
some_suffix-drop f (suc n) (x ∷ xs) h =
    let rest : some_suffix f xs ≡ true = some_suffix-drop f n xs h in ground arith

pub some_suffix-true :
    (f : List ℕ → Bool) (xs : List ℕ) → some_suffix f xs ≡ true → (n : ℕ) × (f (drop n xs) ≡ true)
unfolding some_suffix
some_suffix-true f [] h = (0, h)
some_suffix-true f (x ∷ xs) h = elim (Bool-cases (f (x ∷ xs))) [
  | inl yes_here ↦ (0, yes_here)
  | inr not_here ↦ let later = some_suffix-true f xs (rw not_here at h) in (suc (later.0), later.1)
]

-- The alternatives of a star: here, or one byte further.
pub some_suffix-split :
    (f : List ℕ → Bool) (xs : List ℕ) → some_suffix f xs ≡ (f xs || some_suffix f (drop 1 xs))
unfolding some_suffix
some_suffix-split f [] = elim (Bool-cases (f [])) [ inl e ↦ rw e refl | inr e ↦ rw e refl ]
some_suffix-split f (x ∷ xs) = refl

-- A part of the pattern without a star uses as many bytes as it has.
pub glob_matches-append :
    (front back name : List ℕ)
    → All IsPlain front
    → glob_matches (front ++ back) name ≡ true
    → glob_matches back (drop (length front) name) ≡ true
unfolding glob_matches first_and_rest
glob_matches-append [] back name plain h = h
glob_matches-append (p ∷ front) back [] plain h = ground arith
glob_matches-append (p ∷ front) back (c ∷ cs) plain h =
    glob_matches-append front back cs plain.1 (ground arith)
