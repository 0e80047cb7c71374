-- ===== src/Pools/Tests.antt =====
-- The theorems about the pools at concrete inputs.
use Prim.Native.String.{String}
use go_handbook_for_software.Base.{ℕ, ◌≡◌, ◌⊎◌, refl, true, false, List, [], ◌∷◌, none, arith, inr}
use go_handbook_for_software.Pools.{
  Job, Pool, busy, returned, tally, live, holding, run, result_of, handed, closed_in, sent, left,
  closed_out, collected, Reach, start, next,
}
use go_handbook_for_software.Pools.Progress.{IsDone, run_delivers}
use go_handbook_for_software.Pools.Cancel
use go_handbook_for_software.Pools.Cancel.{Task, Steps, here, then, inner, received_job, canceled}
use go_handbook_for_software.Pools.Stopped.{
  Advances, Ending, IsReported, IsStuck, cancel_closes, stuck_stays_open,
}

abbrev did : ℕ → String → String
did worker name = name

abbrev alpha : Job
alpha = record { id = 1; name = "alpha" }

abbrev one_job : List Job
one_job = alpha ∷ []

-- one job handed out, sent, both closes, the worker's return and the result received
abbrev delivered : Pool
delivered = record {
  pending = [];
  in_closed = true;
  workers = returned ∷ [];
  buffered = [];
  out_closed = true;
  received = record { job_id = 1; output = "alpha" } ∷ [];
}

delivered-Reach : Reach did one_job 1 6 delivered
unfolding run result_of tally live
delivered-Reach =
    let s1 = next start (handed (run one_job 1) [] [] alpha [] refl refl) in
    let s2 = next s1 (sent _ [] [] alpha refl (omega arith)) in
    let s3 = next s2 (closed_in _ refl refl) in
    let s4 = next s3 (left _ [] [] refl refl) in
    let s5 = next s4 (closed_out _ refl refl) in next s5 (collected _ _ [] refl)

run_delivers_example : IsDone one_job delivered
run_delivers_example = (run_delivers did one_job 1 (omega arith) delivered-Reach).2 (omega arith)

abbrev task : Task
task = record { id = 1; process = λ done. ("done", none) }

abbrev tasks : List Task
tasks = task ∷ []

-- one job received, then the context is canceled
abbrev canceled_busy : Cancel.Pool
canceled_busy = record {
  intake = [];
  intake_closed = false;
  ctx_done = true;
  workers = busy task ∷ [];
  reading = true;
  received = [];
  out_closed = false;
}

canceled_busy-Steps : Steps (Cancel.run tasks 1) canceled_busy
unfolding Cancel.run
canceled_busy-Steps =
    let received = then here (inner (received_job (Cancel.run tasks 1) [] [] task [] refl refl)) in
    then received (canceled _ refl)

canceled_busy-Ending : Ending canceled_busy
unfolding Ending
canceled_busy-Ending = inr refl

cancel_closes_example : IsReported tasks canceled_busy ⊎ Advances canceled_busy
cancel_closes_example =
    cancel_closes tasks 1 canceled_busy canceled_busy-Steps refl canceled_busy-Ending

-- a worker with a job in hand, whose caller has stopped receiving
abbrev abandoned_busy : Cancel.Pool
abandoned_busy = record canceled_busy { ctx_done = false; reading = false }

abbrev abandoned_canceled : Cancel.Pool
abandoned_canceled = record canceled_busy { reading = false }

abandoned_busy-Steps : Steps abandoned_busy abandoned_canceled
abandoned_busy-Steps = then here (canceled abandoned_busy refl)

abandoned_busy-IsStuck : IsStuck abandoned_busy
unfolding tally holding
abandoned_busy-IsStuck = record { unread = refl; in_hand = omega arith; still_open = refl }

stuck_stays_open_example : abandoned_canceled.out_closed ≡ false
stuck_stays_open_example = stuck_stays_open abandoned_busy-Steps abandoned_busy-IsStuck
