-- ===== src/Jobs/Service.antt =====
-- 08-concurrency/examples/05-jobprocessor/main.go: the processor with its workers and its context, as
-- steps. The worker's `select` may take either case that is ready. A job's attempts are one step, as
-- the counters that they add to are atomic.
use go_handbook_for_software.Base.{
  ℕ, ◌+◌, ◌-◌, ◌≡◌, ◌⊎◌, Bool, true, false, List, [], ◌∷◌, ◌++◌, if◌then◌else◌, ltb, length,
  replicate,
}
use go_handbook_for_software.Pools.{Worker, idle, busy, returned, live, tally}
use go_handbook_for_software.Jobs.{
  RetryPolicy, with_defaults, no_metrics, Attempt, Log, run_with_retries,
}

-- `Processor` once it has been started: the channel's capacity and jobs, the policy, the metrics with
-- the lines logged, the workers, whether the context is done and whether `Stop` closed the channel.
-- `intake` and `ran` record, for the theorems, the jobs accepted and those that `runWithRetries` has
-- been through.
pub record Service (J : Type 0) : Type 0 where
  pub depth : ℕ
  pub queue : List J
  pub policy : RetryPolicy
  pub log : Log
  pub workers : List (Worker J)
  pub ctx_done : Bool
  pub closed : Bool
  pub intake : List J
  pub ran : List J

-- `NewProcessor`
unfoldable pub new_processor : {J : Type 0} → ℕ → RetryPolicy → Service J
new_processor depth policy = record {
  depth = depth;
  queue = [];
  policy = with_defaults policy;
  log = (no_metrics, []);
  workers = [];
  ctx_done = false;
  closed = false;
  intake = [];
  ran = [];
}

-- `Start`, with the first statements of its goroutines
unfoldable pub start_workers : {J : Type 0} → ℕ → Service J → Service J
start_workers n s = record s {
  workers = replicate n idle;
  log = (record s.log.0 { in_flight = s.log.0.in_flight + n }, s.log.1);
}

-- `Submit`: true is the nil error, false is ErrOverloaded
unfoldable pub submit_job : {J : Type 0} → J → Service J → Service J × Bool
submit_job job s =
    if ltb (length s.queue) s.depth
    then (
      record s {
        queue = s.queue ++ job ∷ [];
        intake = s.intake ++ job ∷ [];
        log = (record s.log.0 { accepted = s.log.0.accepted + 1 }, s.log.1);
      },
      true,
    )
    else (record s { log = (record s.log.0 { rejected = s.log.0.rejected + 1 }, s.log.1) }, false)

-- the deferred `InFlight.Add(-1)` of a worker
unfoldable pub leave : Log → Log
leave (m, l) = (record m { in_flight = m.in_flight - 1 }, l)

-- a worker's call of `runWithRetries` with a job, on what the attempts at it meet
unfoldable pub run_job : {J : Type 0} → (J → ℕ → Attempt) → J → Service J → Service J
run_job env job s = record s {
  log = (run_with_retries (env job) s.policy.max_attempts s.log).0;
  ran = s.ran ++ job ∷ [];
}

-- The steps of submitters, workers, the context and `Stop`. (A send on a closed channel would panic:
-- a caller submits only before `Stop`.)
pub data Step {J : Type 0} : Service J → Service J → Type 0 where
  submitted : (s : Service J) (job : J) → s.closed ≡ false → Step s (submit_job job s).0
  received :
      (s : Service J) (a b : List (Worker J)) (j : J) (js : List J)
      → s.queue ≡ j ∷ js
      → s.workers ≡ a ++ idle ∷ b
      → Step s (record s { queue = js; workers = a ++ busy j ∷ b })
  finished :
      (s : Service J) (a b : List (Worker J)) (j : J) (env : J → ℕ → Attempt)
      → s.workers ≡ a ++ busy j ∷ b
      → Step s (record (run_job env j s) { workers = a ++ idle ∷ b })
  left :
      (s : Service J) (a b : List (Worker J))
      → s.workers ≡ a ++ idle ∷ b
      → ((s.closed ≡ true) × (s.queue ≡ [])) ⊎ (s.ctx_done ≡ true)
      → Step s (record s { workers = a ++ returned ∷ b; log = leave s.log })
  canceled : (s : Service J) → s.ctx_done ≡ false → Step s (record s { ctx_done = true })
  stopped : (s : Service J) → s.closed ≡ false → Step s (record s { closed = true })

pub data Reach {J : Type 0} (n depth : ℕ) (policy : RetryPolicy) : Service J → Type 0 where
  start : Reach n depth policy (start_workers n (new_processor depth policy))
  next : {s t : Service J} → Reach n depth policy s → Step s t → Reach n depth policy t

-- steps from a state on
pub data Steps {J : Type 0} : Service J → Service J → Type 0 where
  here : (s : Service J) → Steps s s
  then : {s t u : Service J} → Step s t → Steps t u → Steps s u

-- `Stop` returns: the channel is closed and `wg.Wait` finds no worker.
unfoldable pub StopReturns : {J : Type 0} → Service J → Type 0
StopReturns s = (s.closed ≡ true) × (tally live s.workers ≡ 0)
