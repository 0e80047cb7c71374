-- ===== src/Jobs.antt =====
-- 08-concurrency/examples/05-jobprocessor/main.go: the bounded processor with retries, and
-- 04-backpressure/main.go, whose Processor has the same queue. A handler's result and what the
-- context does during a wait are the environment's. Counters count from 0 and are taken not to reach
-- 2 ^ 63.
pub mod Retries
pub mod Intake
pub mod Service
pub mod Drain
pub mod Stop
mod Tests
use Prim.Native.String.{String}
use go_handbook_for_software.Base.{
  ℕ, zero, suc, ◌+◌, ◌-◌, Bool, true, false, ◌||◌, List, [], ◌∷◌, ◌++◌, Option, none, some,
  if◌then◌else◌, ltb, leb, ◌==◌, length,
}
use go_handbook_for_software.Base.Int64

-- `RetryPolicy`: `int` and `time.Duration` as `int64` patterns
pub record RetryPolicy : Type 0 where
  pub max_attempts : ℕ
  pub backoff : ℕ

-- `RetryPolicy.WithDefaults`
unfoldable pub with_defaults : RetryPolicy → RetryPolicy
with_defaults p = record {
  max_attempts = if Int64.le p.max_attempts 0 then 1 else p.max_attempts;
  backoff = if Int64.le p.backoff 0 then 100_000_000 else p.backoff;
}

-- An error value: `canceled` is `context.Canceled`.
pub data Cause : Type 0 where
  plain : String → Cause
  canceled deadline_exceeded : Cause
  permanent : Cause → Cause
  wrapped : String → Cause → Cause

-- `errors.As(err, &perm)`
unfoldable pub is_permanent : Cause → Bool
is_permanent (plain s) = false
is_permanent canceled = false
is_permanent deadline_exceeded = false
is_permanent (permanent c) = true
is_permanent (wrapped s c) = is_permanent c

-- `errors.Is(err, context.Canceled)`
unfoldable pub is_canceled : Cause → Bool
is_canceled (plain s) = false
is_canceled canceled = true
is_canceled deadline_exceeded = false
is_canceled (permanent c) = is_canceled c
is_canceled (wrapped s c) = is_canceled c

-- `Metrics`
pub record Metrics : Type 0 where
  pub accepted : ℕ
  pub rejected : ℕ
  pub succeeded : ℕ
  pub failed : ℕ
  pub retried : ℕ
  pub in_flight : ℕ

abbrev pub no_metrics : Metrics
no_metrics = record {
  accepted = 0;
  rejected = 0;
  succeeded = 0;
  failed = 0;
  retried = 0;
  in_flight = 0;
}

-- `Metrics.Snapshot`
unfoldable pub snapshot : Metrics → Metrics
snapshot m = record {
  accepted = 0;
  rejected = 0;
  succeeded = 0;
  failed = 0;
  retried = 0;
  in_flight = 0;
}

-- What a handler does: return nil, return an error, or panic with a text.
pub data Outcome : Type 0 where
  done : Outcome
  failed_with : Cause → Outcome
  panicked : String → Outcome

-- `safeRun`: a panic becomes a plain error
unfoldable pub safe_run : Outcome → Option Cause
safe_run done = none
safe_run (failed_with e) = some e
safe_run (panicked s) = some (plain s)

-- One attempt: what the handler does, and the context's error if the context ends the wait after it.
pub record Attempt : Type 0 where
  pub outcome : Outcome
  pub interrupted : Option Cause

-- A line that the processor logs: a retry with its attempt, or the final failure with its error.
pub data LogLine : Type 0 where
  retrying : ℕ → Cause → LogLine
  job_failed : Option Cause → LogLine

abbrev pub Log : Type 0
Log = Metrics × List LogLine

-- `fail`
unfoldable pub fail : Option Cause → Log → Log
fail e (m, l) = (record m { failed = m.failed + 1 }, l ++ job_failed e ∷ [])

-- the wait after a failed attempt that is not the last: `go_on` is the log if the backoff ends
unfoldable pub wait : ℕ → Cause → Option Cause → Log → Log × Bool
unfolding fail
wait attempt e interrupted (m, l) =
    let log : Log = (record m { retried = m.retried + 1 }, l ++ retrying attempt e ∷ []) in
    elim interrupted [ none ↦ (log, true) | some c ↦ (fail (some c) log, false) ]

-- the loop of `runWithRetries`: `left` is `MaxAttempts + 1 - attempt`; the number counts the calls of
-- the handler
unfoldable pub run_loop : (ℕ → Attempt) → ℕ → ℕ → Option Cause → Log → Log × ℕ
unfolding wait
run_loop env zero attempt last log = (fail last log, 0)
run_loop env (suc left) attempt last log = elim (safe_run ((env attempt).outcome)) [
  | none ↦ ((record log.0 { succeeded = log.0.succeeded + 1 }, log.1), 1)
  | some e ↦
      let waited =
        if left == 0 then (log, true) else wait attempt e ((env attempt).interrupted) log in
      let (log', calls) = run_loop env left (attempt + 1) (some e) waited.0 in
      if is_permanent e || is_canceled e
      then (fail last log, 1)
      else if waited.1
      then (log', calls + 1)
      else (waited.0, 1)
]

-- `runWithRetries`
unfoldable pub run_with_retries : (ℕ → Attempt) → ℕ → Log → Log × ℕ
run_with_retries env max_attempts log = run_loop env max_attempts 1 none log

-- `Processor`: the channel's capacity, the jobs in it, the jobs that workers have received and not
-- finished, whether `Stop` closed the channel, and the metrics.
pub record Processor (Job : Type 0) : Type 0 where
  pub depth : ℕ
  pub queue : List Job
  pub running : ℕ
  pub closed : Bool
  pub accepted : ℕ
  pub rejected : ℕ
  pub processed : ℕ

abbrev pub new_processor : {Job : Type 0} → ℕ → Processor Job
new_processor depth = record {
  depth = depth;
  queue = [];
  running = 0;
  closed = false;
  accepted = 0;
  rejected = 0;
  processed = 0;
}

-- `Submit`: true is the nil error, false is ErrOverloaded
unfoldable pub submit : {Job : Type 0} → Job → Processor Job → Processor Job × Bool
submit job p =
    if ltb (length p.queue) p.depth
    then (record p { queue = p.queue ++ job ∷ []; accepted = p.accepted + 1 }, true)
    else (record p { rejected = p.rejected + 1 }, false)

-- a worker receives the oldest job of the channel
unfoldable pub receive : {Job : Type 0} → List Job → Processor Job → Processor Job
receive [] p = p
receive (job ∷ rest) p = record p { queue = rest; running = p.running + 1 }

-- a worker ends the job that it runs
unfoldable pub finish_job : {Job : Type 0} → Processor Job → Processor Job
finish_job p = record p { running = p.running - 1; processed = p.processed + 1 }

-- the `close` of `Stop`
unfoldable pub stop : {Job : Type 0} → Processor Job → Processor Job
stop p = record p { closed = true }
