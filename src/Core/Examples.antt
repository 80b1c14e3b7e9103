-- ===== src/Core/Examples.antt =====
-- A call that fails twice before it succeeds, with the delays of file access.
use openmemory.Prelude.{ℕ, ◌+◌, ◌/◌, ◌%◌, ◌^◌, ◌≤◌, Bool, true, ltb, [], if◌then◌else◌}
use openmemory.Core.Retry.{Outcome, ok, err, io, exp_ms, calculate_delay, with_retry}
use openmemory.Core.Retry.Calls.{calculate_delay-le, EndsAt, with_retry-EndsAt}

abbrev busy_twice : ℕ → Outcome ℕ ℕ × ℕ
busy_twice calls = ((if ltb calls 2 then err calls else ok calls), calls + 1)

abbrev always : ℕ → Bool
always e = true

abbrev no_jitter : ℕ → ℕ
no_jitter attempt = attempt

with_retry-EndsAt_example :
    (n : ℕ) × EndsAt always busy_twice no_jitter io n io.max_retries 0
      (with_retry always busy_twice no_jitter io (record { state = 0; trace = [] }))
with_retry-EndsAt_example = with_retry-EndsAt always busy_twice no_jitter io 0

calculate_delay-le_example :
    (exp_ms io 2 / 2 ≤ calculate_delay io 2 777)
    × (calculate_delay io 2 777 ≤ exp_ms io 2)
    × (exp_ms io 2 ≤ io.max_delay % 2 ^ 64)
calculate_delay-le_example = calculate_delay-le io 2 777
