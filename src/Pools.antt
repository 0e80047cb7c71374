-- ===== src/Pools.antt =====
-- 08-concurrency/examples/02-workerpool/main.go: the pool's goroutines and channels as steps. A step
-- is one communication, one `close` or one return of a goroutine. The text that Sprintf makes for a
-- worker's number and a job's name is a parameter.
pub mod Tally
pub mod Plain
pub mod Progress
pub mod Cancel
pub mod Stopped
mod Tests
use Prim.Native.String.{String}
use go_handbook_for_software.Base.{
  ℕ, zero, suc, ◌+◌, ◌<◌, ◌≡◌, Bool, true, false, List, [], ◌∷◌, ◌++◌, length, replicate,
}

-- `Job`
pub record Job : Type 0 where
  pub id : ℕ
  pub name : String

-- `Result`: its `Err` is never set
pub record Outcome : Type 0 where
  pub job_id : ℕ
  pub output : String

-- A worker waits for a job, has received one, or has returned.
pub data Worker (J : Type 0) : Type 0 where
  idle : Worker J
  busy : J → Worker J
  returned : Worker J

-- the sum of a weight over a list
unfoldable pub tally : {A : Type 0} → (A → ℕ) → List A → ℕ
tally f [] = 0
tally f (x ∷ xs) = f x + tally f xs

-- 1 for a worker that has not called `Done`
unfoldable pub live : {J : Type 0} → Worker J → ℕ
live idle = 1
live (busy j) = 1
live returned = 0

-- the weight of the job that a worker holds
unfoldable pub holding : {J : Type 0} → (J → ℕ) → Worker J → ℕ
holding g idle = 0
holding g (busy j) = g j
holding g returned = 0

-- `Run`'s goroutines: the jobs that the producer has not sent, whether it closed `in`, the workers,
-- the results in `out`, whether `out` is closed, and what the caller has received from it.
pub record Pool : Type 0 where
  pub pending : List Job
  pub in_closed : Bool
  pub workers : List (Worker Job)
  pub buffered : List Outcome
  pub out_closed : Bool
  pub received : List Outcome

-- `Run` before any goroutine has done something
unfoldable pub run : List Job → ℕ → Pool
run jobs n = record {
  pending = jobs;
  in_closed = false;
  workers = replicate n idle;
  buffered = [];
  out_closed = false;
  received = [];
}

module _ (did : ℕ → String → String) where
  -- the literal that a worker sends
  unfoldable pub result_of : ℕ → Job → Outcome
  result_of worker j = record { job_id = j.id; output = did worker j.name }

  -- The steps of a pool whose `out` has the capacity given: a job passes from the producer to a
  -- worker, the producer closes `in`, a worker sends its result, a worker finds `in` closed and
  -- returns, the closer closes `out` after `Wait`, the caller receives a result.
  pub data Step (capacity : ℕ) : Pool → Pool → Type 0 where
    handed :
        (s : Pool) (a b : List (Worker Job)) (j : Job) (js : List Job)
        → s.pending ≡ j ∷ js
        → s.workers ≡ a ++ idle ∷ b
        → Step capacity s (record s { pending = js; workers = a ++ busy j ∷ b })
    closed_in :
        (s : Pool)
        → s.pending ≡ []
        → s.in_closed ≡ false
        → Step capacity s (record s { in_closed = true })
    sent :
        (s : Pool) (a b : List (Worker Job)) (j : Job)
        → s.workers ≡ a ++ busy j ∷ b
        → length s.buffered < capacity
        → Step capacity s (record s {
          workers = a ++ idle ∷ b;
          buffered = s.buffered ++ result_of (length a) j ∷ [];
        })
    left :
        (s : Pool) (a b : List (Worker Job))
        → s.workers ≡ a ++ idle ∷ b
        → s.in_closed ≡ true
        → Step capacity s (record s { workers = a ++ returned ∷ b })
    closed_out :
        (s : Pool)
        → tally live s.workers ≡ 0
        → s.out_closed ≡ false
        → Step capacity s (record s { out_closed = true })
    collected :
        (s : Pool) (r : Outcome) (rs : List Outcome)
        → s.buffered ≡ r ∷ rs
        → Step capacity s (record s { buffered = rs; received = s.received ++ r ∷ [] })

  -- The states that `Run` on the jobs with n workers reaches, with the number of steps.
  pub data Reach (jobs : List Job) (n : ℕ) : ℕ → Pool → Type 0 where
    start : Reach jobs n 0 (run jobs n)
    next : {k : ℕ} {s t : Pool} → Reach jobs n k s → Step (length jobs) s t → Reach jobs n (suc k) t
