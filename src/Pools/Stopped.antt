-- ===== src/Pools/Stopped.antt =====
-- 08-concurrency/examples/03-workerpool-cancel/main.go: when `out` is closed, and when it is not.
use go_handbook_for_software.Base.{
  ℕ, ◌+◌, ◌*◌, ◌<◌, ◌≡◌, refl, ap, ◌∙◌, ◌⊎◌, inl, inr, true, false, List, [], ◌∷◌, arith, length,
  Bool-cases,
}
use go_handbook_for_software.Pools.{idle, busy, returned, tally, live, holding}
use go_handbook_for_software.Pools.Tally.{
  tally-append, tally-replace, tally-replicate, tally-member,
}
use go_handbook_for_software.Pools.Plain.{effort, still}
use go_handbook_for_software.Pools.Progress.{one_idle, one_busy, all_returned, staff, holding-none}
use go_handbook_for_software.Pools.Cancel.{
  Task, process, Pool, run, Inner, received_job, sent, left, closed, Step, inner, intake_ends,
  canceled, abandoned, Steps, here, then,
}

-- the weight of all the jobs of a pool, wherever they are
unfoldable weight : (ℕ → ℕ) → Pool → ℕ
weight g s =
    tally (λ j. g j.id) s.intake
    + tally (holding (λ j. g j.id)) s.workers
    + tally (λ r. g r.task_id) s.received

-- an upper bound of the steps of the workers and the finalizer
unfoldable pub inner_steps : Pool → ℕ
inner_steps s = 3 * length s.intake + tally effort s.workers + still s.out_closed

Inner-weight : {s t : Pool} (g : ℕ → ℕ) → Inner s t → weight g t ≡ weight g s
unfolding weight holding process tally
Inner-weight g (received_job s a b j js p w) = omega (
  arith,
  ap (tally (λ j. g j.id)) p,
  tally-replace (holding (λ j. g j.id)) s.workers a b idle (busy j) w,
)
Inner-weight g (sent s a b j d w _) = omega (
  arith,
  tally-replace (holding (λ j. g j.id)) s.workers a b (busy j) idle w,
  tally-append (λ r. g r.task_id) s.received (process d j ∷ []),
)
Inner-weight g (left s a b w _) =
    omega (arith, tally-replace (holding (λ (j : Task). g j.id)) s.workers a b idle returned w)
Inner-weight g (closed s _ _) = refl

Inner-inner_steps : {s t : Pool} → Inner s t → inner_steps t < inner_steps s
unfolding inner_steps effort still
Inner-inner_steps (received_job s a b j js p w) =
    omega (arith, ap length p, tally-replace effort s.workers a b idle (busy j) w)
Inner-inner_steps (sent s a b j d w _) =
    omega (arith, tally-replace effort s.workers a b (busy j) idle w)
Inner-inner_steps (left s a b w _) =
    omega (arith, tally-replace effort s.workers a b idle returned w)
Inner-inner_steps (closed s _ e) = rw e omega arith

-- no job is lost or doubled by a run
Steps-weight : {s t : Pool} (g : ℕ → ℕ) → Steps s t → weight g t ≡ weight g s
unfolding weight
Steps-weight g here = refl
Steps-weight g (then r (inner q)) = Inner-weight g q ∙ Steps-weight g r
Steps-weight g (then r (intake_ends s _ _)) = Steps-weight g r
Steps-weight g (then r (canceled s _)) = Steps-weight g r
Steps-weight g (then r (abandoned s _)) = Steps-weight g r

-- `out` is closed only after every worker has returned
Steps-closed :
    {s t : Pool}
    → Steps s t
    → (s.out_closed ≡ true → tally live s.workers ≡ 0)
    → t.out_closed ≡ true
    → tally live t.workers ≡ 0
unfolding live
Steps-closed here h e = h e
Steps-closed (then r (inner (received_job s a b j js p w))) h e =
    absurd (omega (arith, tally-member live s.workers a b idle w, Steps-closed r h e))
Steps-closed (then r (inner (sent s a b j d w _))) h e =
    absurd (omega (arith, tally-member live s.workers a b (busy j) w, Steps-closed r h e))
Steps-closed (then r (inner (left s a b w _))) h e =
    absurd (omega (arith, tally-member live s.workers a b idle w, Steps-closed r h e))
Steps-closed (then r (inner (closed s q _))) h e = q
Steps-closed (then r (intake_ends s _ _)) h e = Steps-closed r h e
Steps-closed (then r (canceled s _)) h e = Steps-closed r h e
Steps-closed (then r (abandoned s _)) h e = Steps-closed r h e

-- The caller has one report for each job that has left the intake.
pub record IsReported (jobs : List Task) (s : Pool) : Type 0 where
  pub is_closed : s.out_closed ≡ true
  pub reported :
      (g : ℕ → ℕ)
      → tally (λ r. g r.task_id) s.received + tally (λ j. g j.id) s.intake
        ≡ tally (λ j. g j.id) jobs

-- The intake is closed or the context is done.
unfoldable pub Ending : Pool → Type 0
Ending s = (s.intake_closed ≡ true) ⊎ (s.ctx_done ≡ true)

-- The pool has a step of its own, after which its caller still receives, the end is still on, and fewer
-- steps are left.
unfoldable pub Advances : Pool → Type 0
Advances s =
    (t : Pool) × Inner s t × (t.reading ≡ true) × Ending t × (inner_steps t < inner_steps s)

module _ (jobs : List Task) (n : ℕ) where
  IsReported-all : (s : Pool) → Steps (run jobs n) s → s.out_closed ≡ true → IsReported jobs s
  unfolding weight run holding tally
  IsReported-all s r c = record {
    is_closed = c;
    reported = λ g. omega (
      arith,
      Steps-weight g r,
      holding-none (λ (j : Task). g j.id) s.workers (Steps-closed r (λ e. ground arith) c),
      tally-replicate (holding (λ (j : Task). g j.id)) idle n,
    );
  }

  -- Once the context is done or the intake is closed, and as long as the caller receives: `out` is
  -- closed and each job that a worker received has been reported once, or the pool has a next step of
  -- its own, which lowers the number of those that are left. So the pool ends without its caller's help.
  pub cancel_closes :
      (s : Pool)
      → Steps (run jobs n) s
      → s.reading ≡ true
      → Ending s
      → IsReported jobs s ⊎ Advances s
  unfolding Ending Advances
  cancel_closes s r reads d = elim (staff s.workers) [
    | one_idle a b w ↦ let q = left s a b w d in inr (_, q, reads, d, Inner-inner_steps q)
    | one_busy a b j w ↦
        let q = sent s a b j s.ctx_done w reads in inr (_, q, reads, d, Inner-inner_steps q)
    | all_returned gone ↦ elim (Bool-cases s.out_closed) [
      | inl c ↦ inl (IsReported-all s r c)
      | inr c ↦ let q = closed s gone c in inr (_, q, reads, d, Inner-inner_steps q)
    ]
  ]

-- The caller receives no more, and a worker has a result to send.
pub record IsStuck (s : Pool) : Type 0 where
  pub unread : s.reading ≡ false
  pub in_hand : 0 < tally (holding (λ _. 1)) s.workers
  pub still_open : s.out_closed ≡ false

Step-IsStuck : {s t : Pool} → Step s t → IsStuck s → IsStuck t
unfolding holding
Step-IsStuck (inner (received_job s a b j js p w)) h = record {
  unread = h.unread;
  in_hand =
      omega (arith, h.in_hand, tally-replace (holding (λ _. 1)) s.workers a b idle (busy j) w);
  still_open = h.still_open;
}
Step-IsStuck (inner (sent s a b j d w e)) h = ground (arith, h.unread)
Step-IsStuck (inner (left s a b w _)) h = record {
  unread = h.unread;
  in_hand =
      omega
        (arith, h.in_hand, tally-replace (holding (λ (j : Task). 1)) s.workers a b idle returned w);
  still_open = h.still_open;
}
Step-IsStuck (inner (closed s q _)) h =
    absurd (omega (arith, h.in_hand, holding-none (λ _. 1) s.workers q))
Step-IsStuck (intake_ends s _ _) h = record {
  unread = h.unread;
  in_hand = h.in_hand;
  still_open = h.still_open;
}
Step-IsStuck (canceled s _) h = record {
  unread = h.unread;
  in_hand = h.in_hand;
  still_open = h.still_open;
}
Step-IsStuck (abandoned s _) h = record {
  unread = refl;
  in_hand = h.in_hand;
  still_open = h.still_open;
}

Steps-IsStuck : {s t : Pool} → Steps s t → IsStuck s → IsStuck t
Steps-IsStuck here h = h
Steps-IsStuck (then r q) h = Step-IsStuck q (Steps-IsStuck r h)

-- If the caller stops receiving while a worker holds a job, `out` is never closed, whatever happens
-- afterwards: canceling the context does not end the worker's send.
pub stuck_stays_open : {s t : Pool} → Steps s t → IsStuck s → t.out_closed ≡ false
stuck_stays_open r h = (Steps-IsStuck r h).still_open
