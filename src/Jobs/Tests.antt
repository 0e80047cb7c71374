-- ===== src/Jobs/Tests.antt =====
-- The theorems about the job processor at concrete inputs.
use go_handbook_for_software.Base.{ℕ, ◌≡◌, ◌⊎◌, refl, true, arith, [], none, some}
use go_handbook_for_software.Jobs.{
  plain, permanent, no_metrics, failed_with, safe_run, Attempt, Log, run_with_retries, RetryPolicy,
}
use go_handbook_for_software.Jobs.Retries.{IsSettled, run_with_retries-IsSettled}
use go_handbook_for_software.Pools.{tally, live, holding}
use go_handbook_for_software.Jobs.Service.{
  Service, new_processor, start_workers, submit_job, submitted, stopped, Reach, start, next,
}
use go_handbook_for_software.Jobs.Stop.{Drained, Nearer, Stranded, stop_drains, cancel_strands}

abbrev refused : ℕ → Attempt
refused k = record { outcome = failed_with (permanent (plain "bad card")); interrupted = none }

abbrev fresh : Log
fresh = (no_metrics, [])

refused_first : safe_run ((refused 1).outcome) ≡ some (permanent (plain "bad card"))
unfolding safe_run
refused_first = refl

run_with_retries-IsSettled_example :
    let (log', calls) = run_with_retries refused 3 fresh in IsSettled 3 no_metrics log'.0 calls
run_with_retries-IsSettled_example = run_with_retries-IsSettled refused 3 fresh

abbrev policy : RetryPolicy
policy = record { max_attempts = 3; backoff = 20 }

abbrev started : Service ℕ
started = start_workers 1 (new_processor 2 policy)

-- a job is accepted, and `Stop` closes the channel
abbrev stopping : Service ℕ
stopping = record (submit_job 5 started).0 { closed = true }

-- the same, with the context canceled in between
abbrev interrupted_stop : Service ℕ
interrupted_stop = record (submit_job 5 started).0 { ctx_done = true; closed = true }

accepted-Reach : Reach 1 2 policy (submit_job 5 started).0
unfolding start_workers new_processor
accepted-Reach = next start (submitted started 5 refl)

stopping-Reach : Reach 1 2 policy stopping
unfolding start_workers new_processor submit_job
stopping-Reach = next accepted-Reach (stopped (submit_job 5 started).0 refl)

one_live : tally live interrupted_stop.workers ≡ 1
unfolding start_workers new_processor submit_job tally live
one_live = refl

none_held : tally (holding (λ _. 1)) interrupted_stop.workers ≡ 0
unfolding start_workers new_processor submit_job tally holding
none_held = refl

stop_drains_example : Drained stopping ⊎ Nearer stopping
stop_drains_example =
    stop_drains 1 2 policy (λ j. refused) stopping (omega arith) stopping-Reach refl

cancel_strands_example : Stranded interrupted_stop
cancel_strands_example = cancel_strands 1 interrupted_stop one_live refl refl none_held
