-- ===== src/Prelude/Order.antt =====
-- The traits `PartialEq`, `Eq` and `Ord` as one interface: a comparison with its laws.
-- A record of the program gets its order from that of the tuple of its fields.
use Prim.Native.Nat.{ℕ, compare, Ordering}
use Prim.Native.Nat.Ordering.{lt, eq, gt}
use mathlib.Core.Path.{◌≡◌, refl}
use mathlib.Core.Bool.{Bool, true, false}
use mathlib.Core.Option.{Option, none, some}
use mathlib.Core.List.{List, [], ◌∷◌}
use native.Mathlib.Omega.{arith}

abbrev pub flip : Ordering → Ordering
flip lt = gt
flip eq = eq
flip gt = lt

pub record Ord {ℓ} (A : Type ℓ) : Type ℓ where
  pub cmp : A → A → Ordering
  pub cmp_refl : (a : A) → cmp a a ≡ eq
  pub eq_of_cmp : (a b : A) → cmp a b ≡ eq → a ≡ b
  pub cmp_flip : (a b : A) → cmp b a ≡ flip (cmp a b)
  pub lt_trans : (a b c : A) → cmp a b ≡ lt → cmp b c ≡ lt → cmp a c ≡ lt

abbrev pub is_eq : Ordering → Bool
is_eq eq = true
is_eq _ = false

abbrev pub is_lt : Ordering → Bool
is_lt lt = true
is_lt _ = false

module _ {ℓ} {A : Type ℓ} ⦃o : Ord A⦄ where
  infix 50 ◌==◌
  abbrev pub ◌==◌ : A → A → Bool
  a == b = is_eq (o.cmp a b)

  -- `a < b` as a test
  abbrev pub less : A → A → Bool
  less a b = is_lt (o.cmp a b)

  pub ==→≡ : (a b : A) → (a == b) ≡ true → a ≡ b
  ==→≡ a b h = ground (arith, o.eq_of_cmp a b)

  pub ==_refl : (a : A) → (a == a) ≡ true
  ==_refl a = ground (arith, o.cmp_refl a)

  pub ≡→== : (a b : A) → a ≡ b → (a == b) ≡ true
  ≡→== a b h = rw h (==_refl b)

  pub ==_sym : (a b : A) → (a == b) ≡ (b == a)
  ==_sym a b = ground (arith, o.cmp_flip a b)

pub compare_refl : (a : ℕ) → compare a a ≡ eq
compare_refl a = ground arith

pub eq_of_compare : (a b : ℕ) → compare a b ≡ eq → a ≡ b
eq_of_compare a b h = ground arith

pub compare-flip : (a b : ℕ) → compare b a ≡ flip (compare a b)
compare-flip a b = ground arith

pub compare-lt_trans : (a b c : ℕ) → compare a b ≡ lt → compare b c ≡ lt → compare a c ≡ lt
compare-lt_trans a b c h k = ground arith

instance abbrev pub nat_ord : Ord ℕ
nat_ord = record {
  cmp = compare;
  cmp_refl = compare_refl;
  eq_of_cmp = eq_of_compare;
  cmp_flip = compare-flip;
  lt_trans = compare-lt_trans;
}

abbrev pub then_cmp : Ordering → Ordering → Ordering
then_cmp eq second = second
then_cmp first _ = first

module _ {ℓ κ} {A : Type ℓ} {B : Type κ} ⦃a : Ord A⦄ ⦃b : Ord B⦄ where
  abbrev pub pair_cmp : A × B → A × B → Ordering
  pair_cmp x y = then_cmp (a.cmp x.0 y.0) (b.cmp x.1 y.1)

  pub pair_cmp_refl : (x : A × B) → pair_cmp x x ≡ eq
  pair_cmp_refl x = ground (arith, a.cmp_refl x.0, b.cmp_refl x.1)

  pub eq_of_pair_cmp : (x y : A × B) → pair_cmp x y ≡ eq → x ≡ y
  eq_of_pair_cmp x y h = ground (arith, a.eq_of_cmp x.0 y.0, b.eq_of_cmp x.1 y.1)

  pub pair_cmp-flip : (x y : A × B) → pair_cmp y x ≡ flip (pair_cmp x y)
  pair_cmp-flip x y = ground (arith, a.cmp_flip x.0 y.0, b.cmp_flip x.1 y.1)

  pub pair_lt_trans : (x y z : A × B) → pair_cmp x y ≡ lt → pair_cmp y z ≡ lt → pair_cmp x z ≡ lt
  pair_lt_trans x y z h k = grind (
    arith,
    a.eq_of_cmp x.0 y.0,
    a.eq_of_cmp y.0 z.0,
    a.lt_trans x.0 y.0 z.0,
    b.lt_trans x.1 y.1 z.1,
  )

  -- Tuples compare lexicographically, as the derived orders do.
  instance abbrev pub pair_ord : Ord (A × B)
  pair_ord = record {
    cmp = pair_cmp;
    cmp_refl = pair_cmp_refl;
    eq_of_cmp = eq_of_pair_cmp;
    cmp_flip = pair_cmp-flip;
    lt_trans = pair_lt_trans;
  }

module _ {ℓ} {A : Type ℓ} ⦃o : Ord A⦄ where
  -- Slices compare lexicographically.
  abbrev pub list_cmp : List A → List A → Ordering
  list_cmp [] [] = eq
  list_cmp [] (y ∷ ys) = lt
  list_cmp (x ∷ xs) [] = gt
  list_cmp (x ∷ xs) (y ∷ ys) = then_cmp (o.cmp x y) (list_cmp xs ys)

  pub list_cmp_refl : (xs : List A) → list_cmp xs xs ≡ eq
  list_cmp_refl [] = refl
  list_cmp_refl (x ∷ xs) = ground (arith, o.cmp_refl x, list_cmp_refl xs)

  pub eq_of_list_cmp : (xs ys : List A) → list_cmp xs ys ≡ eq → xs ≡ ys
  eq_of_list_cmp [] [] h = refl
  eq_of_list_cmp [] (y ∷ ys) h = cc
  eq_of_list_cmp (x ∷ xs) [] h = cc
  eq_of_list_cmp (x ∷ xs) (y ∷ ys) h = ground (arith, o.eq_of_cmp x y, eq_of_list_cmp xs ys)

  pub list_cmp-flip : (xs ys : List A) → list_cmp ys xs ≡ flip (list_cmp xs ys)
  list_cmp-flip [] [] = refl
  list_cmp-flip [] (y ∷ ys) = refl
  list_cmp-flip (x ∷ xs) [] = refl
  list_cmp-flip (x ∷ xs) (y ∷ ys) = ground (arith, o.cmp_flip x y, list_cmp-flip xs ys)

  pub list_lt_trans :
      (xs ys zs : List A) → list_cmp xs ys ≡ lt → list_cmp ys zs ≡ lt → list_cmp xs zs ≡ lt
  list_lt_trans [] [] zs h k = cc
  list_lt_trans [] (y ∷ ys) [] h k = cc
  list_lt_trans [] (y ∷ ys) (z ∷ zs) h k = refl
  list_lt_trans (x ∷ xs) [] zs h k = cc
  list_lt_trans (x ∷ xs) (y ∷ ys) [] h k = cc
  list_lt_trans (x ∷ xs) (y ∷ ys) (z ∷ zs) h k =
      grind (arith, o.eq_of_cmp x y, o.eq_of_cmp y z, o.lt_trans x y z, list_lt_trans xs ys zs)

  instance abbrev pub list_ord : Ord (List A)
  list_ord = record {
    cmp = list_cmp;
    cmp_refl = list_cmp_refl;
    eq_of_cmp = eq_of_list_cmp;
    cmp_flip = list_cmp-flip;
    lt_trans = list_lt_trans;
  }

-- The order of the key of each value.
abbrev pub ord_by {ℓ κ} :
    {A : Type ℓ} {B : Type κ} (key : A → B) → ((a a' : A) → key a ≡ key a' → a ≡ a') → Ord B → Ord A
ord_by key injective o = record {
  cmp = λ a b. o.cmp (key a) (key b);
  cmp_refl = λ a. o.cmp_refl (key a);
  eq_of_cmp = λ a b h. injective a b (o.eq_of_cmp (key a) (key b) h);
  cmp_flip = λ a b. o.cmp_flip (key a) (key b);
  lt_trans = λ a b c. o.lt_trans (key a) (key b) (key c);
}

-- `None` sorts below `Some`, so an option is its list of at most one value.
abbrev pub option_key {ℓ} : {A : Type ℓ} → Option A → List A
option_key none = []
option_key (some a) = a ∷ []

pub option_key_injective {ℓ} : {A : Type ℓ} (a b : Option A) → option_key a ≡ option_key b → a ≡ b
option_key_injective none none h = refl
option_key_injective none (some b) h = cc
option_key_injective (some a) none h = cc
option_key_injective (some a) (some b) h = cc

instance abbrev pub option_ord {ℓ} : {A : Type ℓ} ⦃o : Ord A⦄ → Ord (Option A)
option_ord = ord_by option_key option_key_injective list_ord
