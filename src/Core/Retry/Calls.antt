-- ===== src/Core/Retry/Calls.antt =====
-- Which calls `with_retry` makes, and how long it waits between them.
use openmemory.Prelude.{
  ℕ, zero, suc, ◌+◌, ◌-◌, ◌/◌, ◌%◌, ◌^◌, ◌≤◌, ◌<◌, ◌⊎◌, inl, inr, Bool, true, false, [], List, ◌∷◌,
  ltb, eqb, ◌≡◌, refl, sym, ap, ◌∙◌, subst, if◌then◌else◌, Bool-cases, arith,
}
use openmemory.Core.Retry.{
  RetryConfig, Outcome, ok, err, Event, called, slept, min, exp_ms, calculate_delay, Run, wait,
  call, retry_loop, with_retry,
}

-- The jitter over a delay `e`.
jitter_between :
    (e r : ℕ)
    → (e / 2 ≤ (if ltb 0 (e - e / 2) then e / 2 + r % (e - e / 2 + 1) else e / 2))
      × ((if ltb 0 (e - e / 2) then e / 2 + r % (e - e / 2 + 1) else e / 2) ≤ e)
jitter_between e r = (ground arith, ground arith)

min-le : (a b : ℕ) → min a b ≤ b
unfolding min
min-le a b = ground arith

-- A wait is between half of the exponential delay and all of it, and not above the longest delay, which
-- is read as a number of 64 bits.
pub calculate_delay-le :
    (config : RetryConfig) (attempt random : ℕ)
    → (exp_ms config attempt / 2 ≤ calculate_delay config attempt random)
      × (calculate_delay config attempt random ≤ exp_ms config attempt)
      × (exp_ms config attempt ≤ config.max_delay % 2 ^ 64)
unfolding calculate_delay exp_ms
calculate_delay-le config attempt random =
    let (low, high) = jitter_between (exp_ms config attempt) random in
    (low, high, min-le _ (config.max_delay % 2 ^ 64))

Outcome-cases :
    {T E : Type 0} (o : Outcome T E) → ((e : E) × (o ≡ err e)) ⊎ ((val : T) × (o ≡ ok val))
Outcome-cases (err e) = inl (e, refl)
Outcome-cases (ok val) = inr (val, refl)

module _ {S T E : Type 0} (is_retryable : E → Bool) (operation : S → Outcome T E × S)
    (random : ℕ → ℕ) where
  -- The state of the operation after `n` calls, and what call `n` answers, the first being call 0.
  unfoldable pub after : ℕ → S → S
  after zero s = s
  after (suc n) s = (operation (after n s)).1

  unfoldable pub outcome : S → ℕ → Outcome T E
  unfolding after
  outcome s n = (operation (after n s)).0

  unfoldable pub asks_again : Outcome T E → Bool
  asks_again (ok val) = false
  asks_again (err e) = is_retryable e

  -- The events up to call `n`, the last one first: a wait with the delay of its attempt, then its call.
  unfoldable pub trace_of : RetryConfig → ℕ → List Event
  trace_of config zero = called ∷ []
  trace_of config (suc n) = called ∷ slept (calculate_delay config n (random n)) ∷ trace_of config n

  -- A run that made the calls up to call `n` and answers what that one answered.
  abbrev pub EndsAt : RetryConfig → ℕ → ℕ → S → Outcome T E × Run S → Type 0
  EndsAt config n limit s result =
      (n ≤ limit)
      × (result.0 ≡ outcome s n)
      × (result.1.state ≡ after (suc n) s)
      × (result.1.trace ≡ trace_of config n)
      × ((i : ℕ) → i < n → asks_again (outcome s i) ≡ true)
      × ((asks_again (outcome s n) ≡ false) ⊎ (n ≡ limit))

  all_before :
      (s : S) (j : ℕ)
      → ((i : ℕ) → i < suc j → asks_again (outcome s i) ≡ true)
      → asks_again (outcome s (suc j)) ≡ true
      → (i : ℕ) → i < suc (suc j)
      → asks_again (outcome s i) ≡ true
  all_before s j before answered i h = elim (Bool-cases (ltb i (suc j))) [
    | inl less ↦ before i (ground arith)
    | inr last ↦ let q : i ≡ suc j = ground arith in rw q answered
  ]

  retry_loop-EndsAt :
      (config : RetryConfig) (left attempt : ℕ) (last_err : E) (run : Run S) (s : S) (j : ℕ)
      → attempt ≡ j
      → run.state ≡ after (suc j) s
      → outcome s j ≡ err last_err
      → run.trace ≡ trace_of config j
      → ((i : ℕ) → i < suc j → asks_again (outcome s i) ≡ true)
      → (n : ℕ) × EndsAt config n
          (j + left)
          s
          (retry_loop is_retryable operation random config left attempt last_err run)
  unfolding retry_loop outcome after asks_again wait call trace_of
  retry_loop-EndsAt config zero attempt last_err run s j at_j st last count before =
      (j, (omega arith, sym last, st, count, (λ i h. before i (omega arith)), inr (omega arith)))
  retry_loop-EndsAt config (suc left) attempt last_err run s j at_j st last count before =
      let same : (operation run.state).0 ≡ outcome s (suc j) = ap (λ t. (operation t).0) st in
      let moved : (operation run.state).1 ≡ after (suc (suc j)) s = ap (λ t. (operation t).1) st in
      let more : called ∷ slept (calculate_delay config attempt (random attempt)) ∷ run.trace
          ≡ trace_of config (suc j) =
        rw (at_j, count) refl in
      elim (Outcome-cases (operation run.state).0) [
        | inr (val, e) ↦
            rw (retry_loop, wait, e)
              (
                suc j,
                (
                  omega arith,
                  sym e ∙ same,
                  moved,
                  more,
                  before,
                  inl (ap asks_again (sym same ∙ e)),
                ),
              )
        | inl (x, e) ↦ elim (Bool-cases (is_retryable x)) [
          | inr final ↦
              rw (retry_loop, wait, e, final)
                (
                  suc j,
                  (
                    omega arith,
                    sym e ∙ same,
                    moved,
                    more,
                    before,
                    inl (ap asks_again (sym same ∙ e) ∙ final),
                  ),
                )
          | inl again ↦
              rw (retry_loop, wait, e, again)
                (let answered : asks_again (outcome s (suc j)) ≡ true =
                    ap asks_again (sym same ∙ e) ∙ again in
                  let limit : suc j + left ≡ j + suc left = omega arith in
                  subst
                    (λ l.
                      (n : ℕ) × EndsAt config n l s (
                        retry_loop is_retryable operation random config left (attempt + 1) x (
                          call is_retryable operation random
                            (wait is_retryable operation random config attempt run))))
                    limit
                    (retry_loop-EndsAt config left (attempt + 1) x _ s (suc j) (omega arith) moved
                      (sym same ∙ e) more (all_before s j before answered)))
        ]
      ]

  -- `with_retry` ends. It makes at least one call and at most `max_retries` more, waits before each
  -- call but the first with the delay of that attempt, and never otherwise; it answers what the
  -- last call answered; every call before the last failed with an error that is retryable, and the
  -- last one did not, unless all the retries are used up.
  pub with_retry-EndsAt :
      (config : RetryConfig) (s : S)
      → (n : ℕ) × EndsAt config n config.max_retries s
          (with_retry is_retryable operation random config (record { state = s; trace = [] }))
  unfolding with_retry outcome after asks_again call trace_of
  with_retry-EndsAt config s = elim (Outcome-cases (operation s).0) [
    | inr (val, e) ↦
        rw (with_retry, e)
          (
            0,
            (omega arith, sym e, refl, refl, (λ i h. absurd (omega arith)), inl (ap asks_again e)),
          )
    | inl (x, e) ↦ elim (Bool-cases (is_retryable x)) [
      | inr final ↦
          rw (with_retry, e, final)
            (
              0,
              (
                omega arith,
                sym e,
                refl,
                refl,
                (λ i h. absurd (omega arith)),
                inl (ap asks_again e ∙ final),
              ),
            )
      | inl again ↦
          let answered : asks_again (outcome s 0) ≡ true = ap asks_again e ∙ again in
          elim (Bool-cases (eqb config.max_retries 0)) [
            | inl never ↦
                rw (with_retry, e, again, never)
                  (
                    0,
                    (
                      omega arith,
                      sym e,
                      refl,
                      refl,
                      (λ i h. absurd (omega arith)),
                      inr (ground arith),
                    ),
                  )
            | inr some_left ↦
                let limit : 0 + config.max_retries ≡ config.max_retries = omega arith in
                rw (with_retry, e, again, some_left)
                  (subst
                    (λ l.
                      (n : ℕ) × EndsAt config n l s (
                        retry_loop is_retryable operation random config config.max_retries 0 x
                          (call is_retryable operation random (record { state = s; trace = [] }))))
                    limit
                    (retry_loop-EndsAt config config.max_retries 0 x
                      (call is_retryable operation random (record { state = s; trace = [] })) s 0
                      refl refl e refl (λ i h. let q : i ≡ 0 = omega arith in rw q answered)))
          ]
    ]
  ]
