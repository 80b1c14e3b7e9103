-- ===== src/Core/Retry.antt =====
-- `crates/openmemory-core/src/retry.rs`: a call that is tried again, with waits that grow.
-- The operation is a step on a state of its own, `random` gives the random number of an attempt, and
-- the calls and the waits are recorded, the last one first. Durations are counted in milliseconds.
pub mod Calls
use openmemory.Prelude.{
  ℕ, zero, suc, ◌+◌, ◌-◌, ◌*◌, ◌/◌, ◌%◌, ◌^◌, Bool, true, false, not, ◌||◌, List, [], ◌∷◌, ltb, leb,
  eqb, if◌then◌else◌,
}

pub record RetryConfig : Type 0 where
  pub max_retries : ℕ
  pub base_delay : ℕ
  pub max_delay : ℕ

unfoldable pub io : RetryConfig
io = record { max_retries = 3; base_delay = 100; max_delay = 2000 }

unfoldable pub network : RetryConfig
network = record { max_retries = 5; base_delay = 500; max_delay = 10000 }

-- `Result<T, E>`
pub data Outcome (T E : Type 0) : Type 0 where
  ok : T → Outcome T E
  err : E → Outcome T E

unfoldable pub min : ℕ → ℕ → ℕ
min a b = if ltb b a then b else a

-- `u64::MAX`
unfoldable pub max_u64 : ℕ
max_u64 = 2 ^ 64 - 1

unfoldable pub saturating_mul : ℕ → ℕ → ℕ
unfolding min max_u64
saturating_mul a b = min (a * b) max_u64

-- `as_millis() as u64` keeps the lower 64 bits.
unfoldable pub exp_ms : RetryConfig → ℕ → ℕ
unfolding min saturating_mul
exp_ms config attempt =
    min (saturating_mul (config.base_delay % 2 ^ 64) (2 ^ min attempt 31))
      (config.max_delay % 2 ^ 64)

-- `random` is what `rand::random::<u64>()` gave.
unfoldable pub calculate_delay : RetryConfig → ℕ → ℕ → ℕ
unfolding exp_ms
calculate_delay config attempt random =
    let jitter_min = exp_ms config attempt / 2 in
    let jitter_range = exp_ms config attempt - jitter_min in
    if ltb 0 jitter_range then jitter_min + random % (jitter_range + 1) else jitter_min

-- A call of the operation, or a wait.
pub data Event : Type 0 where
  called : Event
  slept : ℕ → Event

-- What a run has left: the state of the operation, and the events.
pub record Run (S : Type 0) : Type 0 where
  pub state : S
  pub trace : List Event

module _ {S T E : Type 0} (is_retryable : E → Bool) (operation : S → Outcome T E × S)
    (random : ℕ → ℕ) where
  -- `std::thread::sleep(calculate_delay(config, attempt))`
  unfoldable pub wait : RetryConfig → ℕ → Run S → Run S
  unfolding calculate_delay
  wait config attempt run = record run {
    trace = slept (calculate_delay config attempt (random attempt)) ∷ run.trace;
  }

  unfoldable pub call : Run S → Run S
  call run = record { state = (operation run.state).1; trace = called ∷ run.trace }

  -- The loop, with the count of rounds it still has; `attempt` counts up from 0.
  unfoldable pub retry_loop : RetryConfig → ℕ → ℕ → E → Run S → Outcome T E × Run S
  unfolding wait call
  retry_loop config zero attempt last_err run = (err last_err, run)
  retry_loop config (suc left) attempt last_err run =
      let waited = wait config attempt run in
      elim (operation waited.state).0 [
        | ok val ↦ (ok val, call waited)
        | err e ↦ elim (is_retryable e) [
          | false ↦ (err e, call waited)
          | true ↦ retry_loop config left (attempt + 1) e (call waited)
        ]
      ]

  unfoldable pub with_retry : RetryConfig → Run S → Outcome T E × Run S
  unfolding call retry_loop
  with_retry config run = elim (operation run.state).0 [
    | ok val ↦ (ok val, call run)
    | err e ↦
        if not (is_retryable e) || eqb config.max_retries 0
        then (err e, call run)
        else retry_loop config config.max_retries 0 e (call run)
  ]
