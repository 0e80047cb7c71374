-- ===== src/Resilience.antt =====
-- 15-microservices/examples/resilience/resilience.go: Retry, the circuit Breaker and the Bulkhead.
-- A time is a number of nanoseconds, 0 for the zero `time.Time`; a cooldown is not negative. The
-- mutex serialises the breaker's calls, and each reading of a clock is an argument.
pub mod Trip
pub mod Probe
pub mod Slots
pub mod Attempts
mod Tests
use go_handbook_for_software.Base.{
  ℕ, zero, suc, ◌+◌, ◌-◌, ◌*◌, ◌^◌, ◌%◌, Bool, true, false, not, ◌&&◌, ◌||◌, List, [], ◌∷◌, Option,
  none, some, if◌then◌else◌, ltb, leb, ◌==◌,
}
use go_handbook_for_software.Base.Int64

pub record Breaker : Type 0 where
  pub failures : ℕ
  pub threshold : ℕ
  pub cooldown : ℕ
  pub open_until : ℕ
  pub half_open : Bool

abbrev pub new_breaker : ℕ → ℕ → Breaker
new_breaker threshold cooldown = record {
  failures = 0;
  threshold = threshold;
  cooldown = cooldown;
  open_until = 0;
  half_open = false;
}

-- `Breaker.Allow`
unfoldable pub allow : ℕ → Breaker → Breaker × Bool
allow now b =
    if ltb now b.open_until
    then (b, false)
    else if b.half_open
    then (b, false)
    else if not (b.open_until == 0) && ltb b.open_until now
    then (record b { half_open = true }, true)
    else (b, true)

-- `Breaker.Record`
unfoldable pub record_outcome : ℕ → Bool → Breaker → Breaker
record_outcome now success b =
    if b.half_open
    then (if success
        then record b { half_open = false; open_until = 0; failures = 0 }
        else record b { half_open = false; open_until = now + b.cooldown })
    else if success
    then record b { failures = 0 }
    else (let failed = b.failures + 1 in
        if leb b.threshold failed
        then record b { failures = failed; open_until = now + b.cooldown }
        else record b { failures = failed })

-- `Bulkhead`: the channel's capacity, and how many values it holds
pub record Bulkhead : Type 0 where
  pub slots : ℕ
  pub taken : ℕ

abbrev pub new_bulkhead : ℕ → Bulkhead
new_bulkhead max_in_flight = record { slots = max_in_flight; taken = 0 }

pub data Admission : Type 0 where
  admitted canceled bulkhead_full : Admission

-- the `select` of `Bulkhead.Do`; where a slot is free and the context is done, `choose_slot` is the
-- case that the runtime picks
unfoldable pub enter : Bool → Bool → Bulkhead → Bulkhead × Admission
enter ctx_done choose_slot b =
    let free = ltb b.taken b.slots in
    if free && (not ctx_done || choose_slot)
    then (record b { taken = b.taken + 1 }, admitted)
    else if ctx_done
    then (b, canceled)
    else (b, bulkhead_full)

-- the deferred receive of `Bulkhead.Do`
unfoldable pub leave : Bulkhead → Bulkhead
leave b = record b { taken = b.taken - 1 }

-- What `Retry` meets at an attempt: the result of `op` (`none` is success), the time left until the
-- deadline (an `int64` pattern), if there is one, and whether the context ends the backoff.
pub record Attempt (E : Type 0) : Type 0 where
  pub result : Option E
  pub remaining : Option ℕ
  pub done : Bool

-- How `Retry` ends. `exhausted` carries `lastErr`, which is nil if there was no attempt.
-- `rand.Int64N` panics unless its argument is positive.
pub data RetryEnd (E : Type 0) : Type 0 where
  success : RetryEnd E
  deterministic budget_spent : E → RetryEnd E
  context_done panicked : RetryEnd E
  exhausted : Option E → RetryEnd E

-- `base << attempt`
abbrev pub shift_left : ℕ → ℕ → ℕ
shift_left base attempt = (base * 2 ^ attempt) % 2 ^ 64

fits : Option ℕ → ℕ → Bool
fits none backoff = true
fits (some left) backoff = not (Int64.le left backoff)

-- one turn of the loop of `Retry`: how it ends, or `none` to go on
unfoldable pub retry_turn : {E : Type 0} → (E → Bool) → ℕ → ℕ → Attempt E → E → Option (RetryEnd E)
unfolding fits
retry_turn is_retryable base attempt a e =
    let backoff = shift_left base attempt in
    if not (is_retryable e)
    then some (deterministic e)
    else if not (fits a.remaining backoff)
    then some (budget_spent e)
    else if Int64.lt backoff 2
    then some panicked
    else if a.done
    then some context_done
    else none

-- the loop of `Retry`: `left` is `maxAttempts - attempt`; the number beside the end counts the calls
-- of `op`
unfoldable pub retry_loop :
    {E : Type 0} → (ℕ → Attempt E) → (E → Bool) → ℕ → ℕ → ℕ → Option E → RetryEnd E × ℕ
unfolding retry_turn
retry_loop env is_retryable base zero attempt last = (exhausted last, 0)
retry_loop env is_retryable base (suc left) attempt last = elim ((env attempt).result) [
  | none ↦ (success, 1)
  | some e ↦ elim (retry_turn is_retryable base attempt (env attempt) e) [
    | some end ↦ (end, 1)
    | none ↦
        let (end, calls) = retry_loop env is_retryable base left (attempt + 1) (some e) in
        (end, calls + 1)
  ]
]

-- `Retry`; a nil `isRetryable` is the constant true
unfoldable pub retry : {E : Type 0} → (ℕ → Attempt E) → (E → Bool) → ℕ → ℕ → RetryEnd E × ℕ
retry env is_retryable base max_attempts = retry_loop env is_retryable base max_attempts 0 none
