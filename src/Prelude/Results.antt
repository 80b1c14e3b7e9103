-- ===== src/Prelude/Results.antt =====
-- `error.rs` of the merge crate, and computations that may fail, with and without a sink state.
-- An error is its code: the message is text for a human reader, and no code reads it.
use mathlib.Core.Path.{◌≡◌, refl}
use mathlib.Core.Bool.{Bool, true, false}
use mathlib.Core.Option.{Option, none, some}

pub data MergeErrorCode : Type 0 where
  invalid_input bound_exceeded unsorted_input duplicate_input snapshot_mismatch : MergeErrorCode
  discovery_incomplete stale_receipt conflicting_resolution many_to_one : MergeErrorCode
  qualified_id_collision dangling_endpoint three_way_conflict accounting_mismatch : MergeErrorCode
  sink_failure protocol_violation : MergeErrorCode

pub data Result {ℓ} (A : Type ℓ) : Type ℓ where
  ok : A → Result A
  err : MergeErrorCode → Result A

module _ {ℓ κ} {A : Type ℓ} {B : Type κ} where
  infixl 5 ◌>>=◌
  -- `first?` with what comes after it
  abbrev pub ◌>>=◌ : Result A → (A → Result B) → Result B
  err code >>= next = err code
  ok value >>= next = next value

  -- Inversion of a chain that succeeded.
  pub >>=-ok :
      (first : Result A) (next : A → Result B) {b : B}
      → (first >>= next) ≡ ok b
      → (value : A) × (first ≡ ok value) × (next value ≡ ok b)
  >>=-ok (err code) next done = cc
  >>=-ok (ok value) next done = (value, refl, done)

infixl 5 ◌>>◌
abbrev pub ◌>>◌ {κ} : {B : Type κ} → Result (Unit {0}) → Result B → Result B
check >> rest = check >>= λ _. rest

-- `if test { return Err(..) }`
abbrev pub fail_if : Bool → MergeErrorCode → Result (Unit {0})
fail_if true e = err e
fail_if false e = ok tt

-- `value.ok_or(..)?`, and `let Some(value) = .. else { return Err(..) }`
abbrev pub require {ℓ} : {A : Type ℓ} → Option A → MergeErrorCode → Result A
require none e = err e
require (some a) e = ok a

-- A check that was passed, and a value that was there.
pub fail_if-ok {ℓ} :
    {B : Type ℓ} (b : Bool) (e : MergeErrorCode) (k : Result B) {x : B}
    → (fail_if b e >> k) ≡ ok x
    → (b ≡ false) × (k ≡ ok x)
fail_if-ok true e k h = cc
fail_if-ok false e k h = (refl, h)

pub require-ok {ℓ κ} :
    {A : Type ℓ} {B : Type κ} (o : Option A) (e : MergeErrorCode) (f : A → Result B) {x : B}
    → (require o e >>= f) ≡ ok x
    → (a : A) × (o ≡ some a) × (f a ≡ ok x)
require-ok none e f h = cc
require-ok (some a) e f h = (a, refl, h)
