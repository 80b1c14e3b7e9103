-- ===== src/Merge/Canonical.antt =====
-- `canonical.rs`: the framed byte stream that every hash of the merge crate is taken of. What a
-- `blake3::Hasher` holds is the bytes that it was fed, and `finalize` is a function of those.
use Prim.Native.String.{String}
use openmemory.Prelude.{
  ℕ, zero, suc, ◌+◌, ◌-◌, ◌/◌, ◌%◌, ◌^◌, Bool, true, false, Option, none, some, List, [], ◌∷◌, ◌++◌,
  length, ltb, ◌<◌, ◌≡◌, arith, if◌then◌else◌,
}
use openmemory.Text.{Text, Uuid, Externals, as_bytes, literal}

-- 32 bytes; the typed hashes of `hash.rs` are all of this shape.
abbrev pub Hash : Type 0
Hash = List ℕ

pub record CanonicalHasher : Type 0 where
  pub inner : List ℕ
  pub encoded_len : ℕ

-- A hasher goes through a row of calls.
infixl 20 ◌▷◌
abbrev pub ◌▷◌ : {A : Type 0} → CanonicalHasher → (CanonicalHasher → A) → A
h ▷ f = f h

-- `usize::saturating_add`
unfoldable pub saturating_add : ℕ → ℕ → ℕ
saturating_add a b = if ltb (a + b) (2 ^ 64) then a + b else 2 ^ 64 - 1

-- `u64::try_from(value).unwrap_or(u64::MAX)`
unfoldable pub u64_of_usize : ℕ → ℕ
u64_of_usize n = if ltb n (2 ^ 64) then n else 2 ^ 64 - 1

pub u64_of_usize-small : (n : ℕ) → n < 2 ^ 64 → u64_of_usize n ≡ n
unfolding u64_of_usize
u64_of_usize-small n h = ground arith

-- `to_le_bytes` of an integer of `width` bytes
unfoldable pub to_le_bytes : ℕ → ℕ → List ℕ
to_le_bytes zero n = []
to_le_bytes (suc width) n = (n % 256) ∷ to_le_bytes width (n / 256)

-- `inner.update(..)`, and the length that goes with it
unfoldable pub update : List ℕ → ℕ → CanonicalHasher → CanonicalHasher
unfolding saturating_add
update bs n h = record { inner = h.inner ++ bs; encoded_len = saturating_add h.encoded_len n }

unfoldable pub bytes : List ℕ → CanonicalHasher → CanonicalHasher
unfolding update to_le_bytes u64_of_usize
bytes value h =
    h ▷ update (to_le_bytes 8 (u64_of_usize (length value))) 8 ▷ update value (length value)

unfoldable pub text : Text → CanonicalHasher → CanonicalHasher
unfolding bytes as_bytes
text value h = bytes (as_bytes value) h

unfoldable pub bool : Bool → CanonicalHasher → CanonicalHasher
unfolding update
bool true h = update (1 ∷ []) 1 h
bool false h = update (0 ∷ []) 1 h

unfoldable pub u16 : ℕ → CanonicalHasher → CanonicalHasher
unfolding update to_le_bytes
u16 value h = update (to_le_bytes 2 value) 2 h

unfoldable pub u64 : ℕ → CanonicalHasher → CanonicalHasher
unfolding update to_le_bytes
u64 value h = update (to_le_bytes 8 value) 8 h

unfoldable pub usize : ℕ → CanonicalHasher → CanonicalHasher
unfolding u64 u64_of_usize
usize value h = u64 (u64_of_usize value) h

unfoldable pub optional_text : Option Text → CanonicalHasher → CanonicalHasher
unfolding bool text
optional_text none h = bool false h
optional_text (some value) h = h ▷ bool true ▷ text value

unfoldable pub hash : Hash → CanonicalHasher → CanonicalHasher
unfolding bytes
hash value h = bytes value h

unfoldable pub new : String → CanonicalHasher
unfolding bytes
new domain =
    record { inner = []; encoded_len = 0 }
    ▷ bytes (literal "openmemory/canonical/v1")
    ▷ bytes (literal domain)

-- A loop that feeds each value in turn.
unfoldable pub each {ℓ} :
    {A : Type ℓ}
    → (A → CanonicalHasher → CanonicalHasher)
    → List A
    → CanonicalHasher
    → CanonicalHasher
each f [] h = h
each f (x ∷ xs) h = each f xs (f x h)

module _ ⦃ext : Externals⦄ where
  -- `space_id`, `snapshot_id` and `revision_id` feed the same text.
  unfoldable pub id : Uuid → CanonicalHasher → CanonicalHasher
  unfolding text
  id value h = text (ext.hyphenated value) h

  -- `finish`, of which each typed `finish_..` is a wrapper
  unfoldable pub finish : CanonicalHasher → Hash
  finish h = ext.blake3 h.inner
