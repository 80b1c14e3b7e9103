-- ===== src/Text.antt =====
-- Text as the program sees it: a `String` is its sequence of code points. Lengths count the bytes
-- of UTF-8, and the order of code points is the order of those bytes, so `cmp` agrees with Rust's.
-- Code from outside the repository enters as `Externals`.
use Prim.Native.Char.{code}
use Prim.Native.String.{String}
use openmemory.Prelude.{
  ℕ, ◌+◌, ◌/◌, ◌%◌, Bool, true, false, ◌&&◌, ◌||◌, List, [], ◌∷◌, reverse, length, concat_map, ltb,
  leb, eqb, if◌then◌else◌,
}

abbrev pub Text : Type 0
Text = List ℕ

-- A literal of the source.
abbrev pub literal : String → Text
literal String.[] = []
literal (String.◌∷◌ c s) = code c ∷ literal s

-- The 128 bits of a `Uuid`, in the order in which it compares.
abbrev pub Uuid : Type 0
Uuid = ℕ

-- What the program takes from the crates `blake3` and `uuid` and from the Unicode tables:
-- the hash of all the bytes that were fed, the hyphenated form of an id, and lower case.
pub record Externals : Type 0 where
  pub blake3 : List ℕ → List ℕ
  pub hyphenated : Uuid → Text
  pub to_lowercase : Text → Text

-- `char::len_utf8` and the bytes themselves
unfoldable pub utf8_char : ℕ → List ℕ
utf8_char c =
    if ltb c 0x80
    then c ∷ []
    else if ltb c 0x800
    then (0xC0 + c / 64) ∷ (0x80 + c % 64) ∷ []
    else if ltb c 0x10000
    then (0xE0 + c / 4096) ∷ (0x80 + c / 64 % 64) ∷ (0x80 + c % 64) ∷ []
    else (0xF0 + c / 262144) ∷ (0x80 + c / 4096 % 64) ∷ (0x80 + c / 64 % 64) ∷ (0x80 + c % 64) ∷ []

-- `str::as_bytes`
unfoldable pub as_bytes : Text → List ℕ
unfolding utf8_char
as_bytes t = concat_map utf8_char t

-- `str::len`
unfoldable pub byte_len : Text → ℕ
unfolding as_bytes
byte_len t = length (as_bytes t)

-- `char::is_control`, the category Cc
unfoldable pub is_control : ℕ → Bool
is_control c = ltb c 0x20 || (leb 0x7F c && leb c 0x9F)

-- `char::is_whitespace`, the property White_Space
unfoldable pub is_whitespace : ℕ → Bool
is_whitespace c =
    (leb 0x09 c && leb c 0x0D)
    || eqb c 0x20
    || eqb c 0x85
    || eqb c 0xA0
    || eqb c 0x1680
    || (leb 0x2000 c && leb c 0x200A)
    || eqb c 0x2028
    || eqb c 0x2029
    || eqb c 0x202F
    || eqb c 0x205F
    || eqb c 0x3000

unfoldable pub skip_whitespace : Text → Text
skip_whitespace [] = []
skip_whitespace (c ∷ t) = elim (is_whitespace c) [ true ↦ skip_whitespace t | false ↦ c ∷ t ]

-- `str::trim`
unfoldable pub trim : Text → Text
unfolding skip_whitespace is_whitespace
trim t = reverse (skip_whitespace (reverse (skip_whitespace t)))

-- `str::is_empty`
abbrev pub is_empty {ℓ} : {A : Type ℓ} → List A → Bool
is_empty [] = true
is_empty (_ ∷ _) = false

-- `str::starts_with`
abbrev pub starts_with : Text → Text → Bool
starts_with t [] = true
starts_with [] (p ∷ ps) = false
starts_with (c ∷ t) (p ∷ ps) = eqb c p && starts_with t ps

-- `split_whitespace` and `join(" ")`: words, with one blank between two. `started` says that a
-- word came before, `pending` that white space stands between it and what follows.
join_words : Bool → Bool → Text → Text
join_words started pending [] = []
join_words started pending (c ∷ t) = elim (is_whitespace c) [
  | true ↦ join_words started true t
  | false ↦ elim (started && pending) [
    | true ↦ 0x20 ∷ c ∷ join_words true false t
    | false ↦ c ∷ join_words true false t
  ]
]

unfoldable pub collapse_whitespace : Text → Text
unfolding join_words is_whitespace
collapse_whitespace t = join_words false false t
