-- ===== src/Jobs/Stop.antt =====
-- 08-concurrency/examples/05-jobprocessor/main.go: `Stop` returns, and the jobs that are then left.
use go_handbook_for_software.Base.{
  ℕ, zero, suc, ◌+◌, ◌*◌, ◌≤◌, ◌<◌, ◌≡◌, refl, ap, ◌⊎◌, inl, inr, true, false, List, [], ◌∷◌, ◌++◌,
  arith, length,
}
use go_handbook_for_software.Pools.{Worker, idle, busy, returned, tally, live, holding}
use go_handbook_for_software.Pools.Tally.{tally-replace, tally-member, tally-length}
use go_handbook_for_software.Pools.Plain.{effort}
use go_handbook_for_software.Pools.Progress.{one_idle, one_busy, all_returned, staff, holding-none}
use go_handbook_for_software.Jobs.{RetryPolicy, Attempt}
use go_handbook_for_software.Jobs.Service.{
  Service, leave, run_job, Step, Steps, here, then, received, finished, left, Reach, StopReturns,
}
use go_handbook_for_software.Jobs.Drain.{Reach-IsSound}

-- what is left for the workers: 3 for a queued job
unfoldable pub work_left : {J : Type 0} → Service J → ℕ
work_left s = 3 * length s.queue + tally effort s.workers

-- A worker's step that brings `Stop` nearer to its return.
unfoldable pub Nearer : {J : Type 0} → Service J → Type 0
Nearer {J} s = (t : Service J) × Step s t × (t.closed ≡ true) × (work_left t < work_left s)

-- Every worker has returned; unless the context was canceled, the queue is empty, the jobs that ran are
-- the jobs accepted, each as often (whatever `g` counts), and each run was a success or a failure.
unfoldable pub Drained : {J : Type 0} → Service J → Type 0
Drained {J} s =
    (tally live s.workers ≡ 0)
    × (s.log.0.in_flight ≡ 0)
    × (s.ctx_done ≡ false
        → (s.queue ≡ [])
          × ((g : J → ℕ) → tally g s.ran ≡ tally g s.intake)
          × (s.log.0.accepted ≡ s.log.0.succeeded + s.log.0.failed))

module _ {J : Type 0} (env : J → ℕ → Attempt) where
  idle-Nearer :
      (s : Service J) (a b : List (Worker J)) (q : List J)
      → s.queue ≡ q
      → s.workers ≡ a ++ idle ∷ b
      → s.closed ≡ true
      → Nearer s
  unfolding Nearer work_left effort
  idle-Nearer s a b (j ∷ js) p w c = (
    _,
    received s a b j js p w,
    c,
    omega (arith, ap length p, tally-replace effort s.workers a b idle (busy j) w),
  )
  idle-Nearer s a b [] p w c = (
    _,
    left s a b w (inl (c, p)),
    c,
    omega (arith, tally-replace effort s.workers a b idle returned w),
  )

  busy-Nearer :
      (s : Service J) (a b : List (Worker J)) (j : J)
      → s.workers ≡ a ++ busy j ∷ b
      → s.closed ≡ true
      → Nearer s
  unfolding run_job Nearer work_left effort
  busy-Nearer s a b j w c = (
    _,
    finished s a b j env w,
    c,
    omega (arith, tally-replace effort s.workers a b (busy j) idle w),
  )

-- From here on, `Stop` can return with the queue as it is and without a job being run.
unfoldable pub Stranded : {J : Type 0} → Service J → Type 0
Stranded {J} s = (t : Service J) × Steps s t × StopReturns t × (t.queue ≡ s.queue) × (t.ran ≡ s.ran)

module _ {J : Type 0} (n depth : ℕ) (policy : RetryPolicy) where
  -- what `Stop` promises, if the context is still live: nothing queued, every accepted job run
  drained_all :
      (s : Service J)
      → 1 ≤ n
      → Reach n depth policy s
      → tally live s.workers ≡ 0
      → s.ctx_done ≡ false
      → (s.queue ≡ [])
        × ((g : J → ℕ) → tally g s.ran ≡ tally g s.intake)
        × (s.log.0.accepted ≡ s.log.0.succeeded + s.log.0.failed)
  unfolding tally
  drained_all s le r gone d =
      let h = Reach-IsSound n depth r in
      let q = (h.drained d (omega (arith, h.staffed, gone, le))).1 in
      let ran : (g : J → ℕ) → tally g s.ran ≡ tally g s.intake =
        λ g. omega (arith, h.traced g, ap (tally g) q, holding-none g s.workers gone) in
      (
        q,
        ran,
        omega (arith, h.admitted, h.ended, ran (λ _. 1), tally-length s.ran, tally-length s.intake),
      )

  -- After `Stop` closed the channel, either every worker has returned, and then, unless the context
  -- was canceled, the queue is empty, the jobs that have been run are exactly the jobs accepted, each
  -- as many times as it was accepted, and there are as many successes and failures as jobs accepted;
  -- or a worker has a step that brings the return nearer, however the jobs end.
  pub stop_drains :
      (env : J → ℕ → Attempt) (s : Service J)
      → 1 ≤ n
      → Reach n depth policy s
      → s.closed ≡ true
      → Drained s ⊎ Nearer s
  unfolding Drained
  stop_drains env s le r c = elim (staff s.workers) [
    | one_idle a b w ↦ inr (idle-Nearer env s a b s.queue refl w c)
    | one_busy a b j w ↦ inr (busy-Nearer env s a b j w c)
    | all_returned gone ↦
        let h = Reach-IsSound n depth r in
        inl (gone, omega (arith, h.in_flight, gone), drained_all s le r gone)
  ]

-- If the context is done while no worker has a job in hand, then the workers can from there all return
-- without running a job, and `Stop` returns, with the jobs in the queue left as they are.
pub cancel_strands :
    {J : Type 0} (m : ℕ) (s : Service J)
    → tally live s.workers ≡ m
    → s.ctx_done ≡ true
    → s.closed ≡ true
    → tally (holding (λ _. 1)) s.workers ≡ 0
    → Stranded s
unfolding live holding StopReturns Stranded
cancel_strands zero s e d c z = (s, here s, (c, e), refl, refl)
cancel_strands {J} (suc m) s e d c z = elim (staff s.workers) [
  | one_idle a b w ↦
      let (t, steps, stop, q, r) =
        cancel_strands m (record s { workers = a ++ returned ∷ b; log = leave s.log })
          (omega (arith, e, tally-replace live s.workers a b idle returned w)) d c
          (omega
            (arith, z, tally-replace (holding (λ (_ : J). 1)) s.workers a b idle returned w)) in
      (t, then (left s a b w (inr d)) steps, stop, q, r)
  | one_busy a b j w ↦
      absurd (omega (arith, z, tally-member (holding (λ _. 1)) s.workers a b (busy j) w))
  | all_returned gone ↦ absurd (omega (arith, gone, e))
]
