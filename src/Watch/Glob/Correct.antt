-- ===== src/Watch/Glob/Correct.antt =====
-- `matches_simple_glob` decides what its pattern means, on every name that has no `*` of its own.
use openmemory.Prelude.{
  ℕ, zero, suc, ◌+◌, ◌-◌, ◌*◌, ◌≤◌, ◌<◌, ◌≡◌, refl, sym, ap, ◌∙◌, inl, inr, Bool, true, false, ◌||◌,
  Option, none, some, List, ◌∷◌, length, get_elem?, drop, drop-cases, All, All-get_elem?, eqb,
  Bool-cases, Option-cases, arith,
}
use openmemory.Watch.Glob.{
  Cursor, star, takes, is_star, round, walk, start, fuel_for, matches_simple_glob,
}
use openmemory.Watch.Glob.Reference.{IsPlain, glob_matches}
use openmemory.Watch.Glob.Loop.{
  only_stars_lem, verdict, IsOpen, taken, starred, moved, taken_keeps, starred_keeps, moved_keeps,
  verdict_stuck, verdict_end, glob_matches_refused,
}
use native.Mathlib.Nat.{mul-le-mul_right}

module _ (pattern name : List ℕ) (plain : All IsPlain name) where
  -- Rounds that are left: the moves of the last star, each with a run over the pattern.
  unfoldable rounds_left : Cursor → ℕ
  rounds_left s =
      (length name - s.star_match_idx) * (length pattern + 1) + (length pattern - s.pat_idx)

  moves_fewer :
      (a b : ℕ)
      → a ≤ b
      → (length name - b) * (length pattern + 1) ≤ (length name - a) * (length pattern + 1)
  moves_fewer a b h = mul-le-mul_right (length pattern + 1) (omega arith)

  move_less :
      (m : ℕ)
      → m < length name
      → (length name - (m + 1)) * (length pattern + 1) + (length pattern + 1)
        ≡ (length name - m) * (length pattern + 1)
  move_less m h =
      let e : length name - m ≡ length name - (m + 1) + 1 = omega arith in rw e (omega arith)

  -- A round keeps what is to be found out, or answers it, and there are fewer rounds left.
  data Round (s : Cursor) (r : Option Cursor) : Type 0 where
    goes_on :
        (s' : Cursor)
        → r ≡ some s'
        → IsOpen pattern name s'
        → verdict pattern name s' ≡ verdict pattern name s
        → rounds_left s' < rounds_left s
        → Round s r
    refuses : r ≡ none → verdict pattern name s ≡ false → Round s r

  mismatch :
      (s : Cursor) (c : ℕ)
      → s.name_idx < length name
      → IsOpen pattern name s
      → glob_matches (drop s.pat_idx pattern) (drop s.name_idx name) ≡ false
      → takes (get_elem? pattern s.pat_idx) c ≡ false
      → is_star (get_elem? pattern s.pat_idx) ≡ false
      → Round s (round pattern c s)
  unfolding round
  mismatch s c inside h refused no_take no_star = elim (Option-cases s.star_idx) [
    | inl e ↦ refuses (rw (no_take, no_star, e) refl) (verdict_stuck pattern name s e refused)
    | inr (i, e) ↦
        let (kept, same) = moved_keeps pattern name s i e refused inside h in
        let fewer : (length name - (s.star_match_idx + 1)) * (length pattern + 1)
              + (length pattern - (i + 1))
            < (length name - s.star_match_idx) * (length pattern + 1)
              + (length pattern - s.pat_idx) =
          omega (arith, move_less s.star_match_idx (omega (arith, h.3))) in
        goes_on (moved i s) (unfold moved in rw (no_take, no_star, e) (rw e refl)) kept same
          (unfold moved rounds_left in fewer)
  ]

  advance :
      (s : Cursor) (p c : ℕ)
      → IsPlain c
      → get_elem? pattern s.pat_idx ≡ some p
      → drop s.pat_idx pattern ≡ p ∷ drop (s.pat_idx + 1) pattern
      → s.pat_idx < length pattern
      → drop s.name_idx name ≡ c ∷ drop (s.name_idx + 1) name
      → s.name_idx < length name
      → IsOpen pattern name s
      → Round s (round pattern c s)
  unfolding round
  advance s p c plain_c e here inside at c_inside h = elim (Bool-cases (takes (some p) c)) [
    | inl take_it ↦
        let (kept, same) =
          taken_keeps pattern name s p c plain_c take_it here inside at c_inside h in
        goes_on (taken s) (rw (e, take_it) (unfold taken in refl)) kept same
          (unfold taken rounds_left in omega arith)
    | inr no_take ↦ elim (Bool-cases (eqb p star)) [
      | inl is ↦
          let (kept, same) = starred_keeps pattern name s p c is here inside at h in
          goes_on (starred s) (rw (e, no_take) (unfold starred is_star in rw is refl)) kept same (
            unfold starred rounds_left in
            omega (arith, h.3, moves_fewer s.star_match_idx s.name_idx h.3))
      | inr plain_p ↦
          mismatch s c c_inside h (rw (here, at) (glob_matches_refused p c _ _ plain_p no_take))
            (rw e no_take) (rw e (unfold is_star in plain_p))
    ]
  ]

  round_lem :
      (s : Cursor) (c : ℕ)
      → IsPlain c
      → drop s.name_idx name ≡ c ∷ drop (s.name_idx + 1) name
      → s.name_idx < length name
      → IsOpen pattern name s
      → Round s (round pattern c s)
  round_lem s c plain_c at c_inside h = elim (drop-cases s.pat_idx pattern) [
    | inl (outside, gone, _) ↦
        mismatch s c c_inside h (rw (gone, at) (unfold glob_matches in refl))
          (rw outside (unfold takes in refl)) (rw outside (unfold is_star in refl))
    | inr (p, e, here, inside) ↦ advance s p c plain_c e here inside at c_inside h
  ]

  walk_lem :
      (fuel : ℕ) (s : Cursor)
      → IsOpen pattern name s
      → rounds_left s < fuel
      → walk fuel pattern name s ≡ some (verdict pattern name s)
  unfolding walk
  walk_lem zero s h less = absurd (omega arith)
  walk_lem (suc fuel) s h less = elim (drop-cases s.name_idx name) [
    | inl (outside, gone, _) ↦
        rw (walk, outside)
          (ap some (
            only_stars_lem (length pattern) pattern s.pat_idx (omega arith) h.1
            ∙ sym (verdict_end pattern name s h gone)))
    | inr (c, e, at, inside) ↦
        rw (walk, e)
          (elim (round_lem s c (All-get_elem? IsPlain name s.name_idx c plain e) at inside h) [
            | goes_on s' r kept same fewer ↦ rw (r, walk_lem fuel s' kept (omega arith), same) refl
            | refuses r stuck ↦ rw (r, stuck) refl
          ])
  ]

or_nothing : (b : Bool) → (b || false) ≡ b
or_nothing true = refl
or_nothing false = refl

-- On a name without a `*`, the two loops end within the fuel, and they answer whether the pattern
-- matches the name, where `*` stands for any run of bytes and `?` for any one byte.
pub matches_simple_glob-glob_matches :
    (pattern name : List ℕ)
    → All IsPlain name
    → matches_simple_glob pattern name ≡ some (glob_matches pattern name)
unfolding matches_simple_glob fuel_for start
matches_simple_glob-glob_matches pattern name plain =
    let e : length name - 0 ≡ length name = omega arith in
    let enough : (length name - 0) * (length pattern + 1) + (length pattern - 0)
        < length name * (length pattern + 1) + length pattern + 1 =
      rw e (omega arith) in
    walk_lem pattern name plain (fuel_for pattern name) start
      (refl, omega arith, omega arith, omega arith) (unfold rounds_left in enough)
    ∙ ap some (unfold verdict in or_nothing (glob_matches pattern name))
