-- ===== src/Jobs/Retries.antt =====
-- `runWithRetries`, `WithDefaults` and `Snapshot`.
use go_handbook_for_software.Base.{
  ℕ, zero, suc, ◌+◌, ◌-◌, ◌≤◌, ◌<◌, ◌≡◌, ◌^◌, refl, true, ◌||◌, [], ◌∷◌, ◌++◌, arith, Option, none,
  some, Option-cases, inl, inr,
}
use go_handbook_for_software.Base.Int64
use go_handbook_for_software.Jobs.{
  RetryPolicy, with_defaults, Cause, is_permanent, is_canceled, Metrics, snapshot, Attempt,
  safe_run, retrying, job_failed, Log, fail, wait, run_loop, run_with_retries,
}

-- The metrics after a job that is run with `left` attempts left, against those before.
pub record IsSettled (left : ℕ) (before after : Metrics) (calls : ℕ) : Type 0 where
  pub ended : after.succeeded + after.failed ≡ before.succeeded + before.failed + 1
  pub bounded : calls ≤ left
  pub retries : after.retried ≤ before.retried + (left - 1)
  pub intake :
      (after.accepted ≡ before.accepted)
      × (after.rejected ≡ before.rejected)
      × (after.in_flight ≡ before.in_flight)

settled :
    (env : ℕ → Attempt) (left attempt : ℕ) (last : Option Cause) (log : Log)
    → let (log', calls) = run_loop env left attempt last log in IsSettled left log.0 log'.0 calls
unfolding run_loop wait fail
settled env zero attempt last (m, l) = ground arith
settled env (suc left) attempt last (m, l) =
    elim (Option-cases (safe_run ((env attempt).outcome))) [
      | inl n ↦ ground (arith, n)
      | inr (e, s) ↦ ground (
        arith,
        s,
        settled env left (attempt + 1) (some e) (m, l),
        settled env left (attempt + 1) (some e)
            (record m { retried = m.retried + 1 }, l ++ retrying attempt e ∷ []),
      )
    ]

-- Running a job ends it once: one more success or one more failure is counted, in all. Its handler is
-- called at most `MaxAttempts` times, at most one retry fewer is counted, and the intake's counters
-- stay.
pub run_with_retries-IsSettled :
    (env : ℕ → Attempt) (max_attempts : ℕ) (log : Log)
    → let (log', calls) = run_with_retries env max_attempts log in
      IsSettled max_attempts log.0 log'.0 calls
unfolding run_with_retries
run_with_retries-IsSettled env max_attempts log = settled env max_attempts 1 none log

-- A job whose first attempt fails with a permanent error, or with a cancelation, is not retried; but
-- the line that is logged for it carries the nil error, not the one that stopped it.
pub permanent_first-logs_nil :
    (env : ℕ → Attempt) (n : ℕ) (log : Log) (e : Cause)
    → safe_run ((env 1).outcome) ≡ some e
    → (is_permanent e || is_canceled e) ≡ true
    → run_with_retries env (suc n) log
      ≡ ((record log.0 { failed = log.0.failed + 1 }, log.1 ++ job_failed none ∷ []), 1)
unfolding run_with_retries run_loop fail
permanent_first-logs_nil env n log e s p = ground (arith, s, p)

-- `Snapshot` tells no two metrics apart: whatever was counted, it returns zero for each counter.
pub snapshot_forgets : (m m' : Metrics) → snapshot m ≡ snapshot m'
unfolding snapshot
snapshot_forgets m m' = refl

-- `WithDefaults` leaves at least one attempt and a positive backoff, and changes a policy that has
-- both in no way.
pub with_defaults_lem :
    (p : RetryPolicy)
    → p.max_attempts < 2 ^ 64
    → p.backoff < 2 ^ 64
    → (Int64.lt 0 (with_defaults p).max_attempts ≡ true)
      × (Int64.lt 0 (with_defaults p).backoff ≡ true)
      × (Int64.lt 0 p.max_attempts ≡ true → Int64.lt 0 p.backoff ≡ true → with_defaults p ≡ p)
unfolding with_defaults
with_defaults_lem p a b = (ground arith, ground arith, λ x y. ground arith)
