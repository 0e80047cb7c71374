-- ===== src/Pools/Cancel.antt =====
-- 08-concurrency/examples/03-workerpool-cancel/main.go: the pool with a context, as steps. Where a
-- `select` has two cases that are ready, either may be the next step.
use Prim.Native.String.{String}
use go_handbook_for_software.Base.{
  ℕ, ◌≡◌, ◌⊎◌, Bool, true, false, List, [], ◌∷◌, ◌++◌, Option, replicate,
}
use go_handbook_for_software.Pools.{Worker, idle, busy, returned, tally, live}

-- `Job`: its `Process` gives an output and an error, from whether the context is done
pub record Task : Type 0 where
  pub id : ℕ
  pub process : Bool → String × Option String

-- `Result`
pub record Report : Type 0 where
  pub task_id : ℕ
  pub output : String
  pub error : Option String

-- `process`
unfoldable pub process : Bool → Task → Report
process ctx_done j = record {
  task_id = j.id;
  output = (j.process ctx_done).0;
  error = (j.process ctx_done).1;
}

-- `Run`'s goroutines: the jobs that the caller has still to send, whether it closed `jobs`, whether
-- the context is done, the workers, whether the caller still receives from `out`, what it received,
-- and whether `out` is closed.
pub record Pool : Type 0 where
  pub intake : List Task
  pub intake_closed : Bool
  pub ctx_done : Bool
  pub workers : List (Worker Task)
  pub reading : Bool
  pub received : List Report
  pub out_closed : Bool

-- `Run` before any goroutine has done something
unfoldable pub run : List Task → ℕ → Pool
run jobs n = record {
  intake = jobs;
  intake_closed = false;
  ctx_done = false;
  workers = replicate n idle;
  reading = true;
  received = [];
  out_closed = false;
}

-- What the workers and the finalizer do: a worker receives a job; it sends the result, for which the
-- caller must receive, since `out` has no buffer; it returns, as the intake is closed or the context
-- is done; `out` is closed once every worker has returned.
pub data Inner : Pool → Pool → Type 0 where
  received_job :
      (s : Pool) (a b : List (Worker Task)) (j : Task) (js : List Task)
      → s.intake ≡ j ∷ js
      → s.workers ≡ a ++ idle ∷ b
      → Inner s (record s { intake = js; workers = a ++ busy j ∷ b })
  sent :
      (s : Pool) (a b : List (Worker Task)) (j : Task) (ctx_done : Bool)
      → s.workers ≡ a ++ busy j ∷ b
      → s.reading ≡ true
      → Inner s
          (record s { workers = a ++ idle ∷ b; received = s.received ++ process ctx_done j ∷ [] })
  left :
      (s : Pool) (a b : List (Worker Task))
      → s.workers ≡ a ++ idle ∷ b
      → (s.intake_closed ≡ true) ⊎ (s.ctx_done ≡ true)
      → Inner s (record s { workers = a ++ returned ∷ b })
  closed :
      (s : Pool)
      → tally live s.workers ≡ 0
      → s.out_closed ≡ false
      → Inner s (record s { out_closed = true })

-- What the pool's caller does: it closes the intake after its last job, cancels, or stops receiving.
pub data Step : Pool → Pool → Type 0 where
  inner : {s t : Pool} → Inner s t → Step s t
  intake_ends :
      (s : Pool)
      → s.intake ≡ []
      → s.intake_closed ≡ false
      → Step s (record s { intake_closed = true })
  canceled : (s : Pool) → s.ctx_done ≡ false → Step s (record s { ctx_done = true })
  abandoned : (s : Pool) → s.reading ≡ true → Step s (record s { reading = false })

pub data Steps : Pool → Pool → Type 0 where
  here : {s : Pool} → Steps s s
  then : {s t u : Pool} → Steps s t → Step t u → Steps s u
