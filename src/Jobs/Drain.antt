-- ===== src/Jobs/Drain.antt =====
-- 08-concurrency/examples/05-jobprocessor/main.go: what the metrics count, and what `Stop` leaves.
use go_handbook_for_software.Base.{
  ℕ, ◌+◌, ◌≤◌, ◌<◌, ◌≡◌, refl, ap, ◌⊎◌, inl, inr, true, false, List, [], ◌∷◌, ◌++◌, arith, length,
  length-append, Bool-cases, ltb, replicate,
}
use go_handbook_for_software.Pools.{Worker, idle, busy, returned, tally, live, holding}
use go_handbook_for_software.Pools.Tally.{tally-append, tally-replace, tally-replicate}
use go_handbook_for_software.Pools.Plain.{quit}
use go_handbook_for_software.Jobs.{RetryPolicy, Attempt}
use go_handbook_for_software.Jobs.Retries.{run_with_retries-IsSettled}
use go_handbook_for_software.Jobs.Service.{
  Service, new_processor, start_workers, submit_job, run_job, leave, Step, submitted, received,
  finished, left, canceled, stopped, Reach, start, next,
}

-- Each accepted job is queued, in a worker's hands, or run, once in all, and each run is a success or
-- a failure; a worker counts as in flight until it returns; the queue is within its depth.
pub record IsSound {J : Type 0} (n depth : ℕ) (s : Service J) : Type 0 where
  pub capacity : s.depth ≡ depth
  pub bounded : length s.queue ≤ depth
  pub staffed : tally live s.workers + tally quit s.workers ≡ n
  pub in_flight : s.log.0.in_flight ≡ tally live s.workers
  pub traced :
      (g : J → ℕ) → tally g s.intake ≡ tally g s.queue + tally (holding g) s.workers + tally g s.ran
  pub admitted : s.log.0.accepted ≡ length s.intake
  pub ended : s.log.0.succeeded + s.log.0.failed ≡ length s.ran
  pub drained : s.ctx_done ≡ false → 0 < tally quit s.workers → (s.closed ≡ true) × (s.queue ≡ [])

none_held : {J : Type 0} (g : J → ℕ) (n : ℕ) → 0 ≡ 0 + tally (holding g) (replicate n idle) + 0
unfolding holding
none_held g n = omega (arith, tally-replicate (holding g) idle n)

module _ {J : Type 0} (n depth : ℕ) where
  submitted-IsSound :
      (s : Service J) (job : J)
      → s.closed ≡ false
      → IsSound n depth s
      → IsSound n depth (submit_job job s).0
  unfolding submit_job tally
  submitted-IsSound s job c h = elim (Bool-cases (ltb (length s.queue) s.depth)) [
    | inl e ↦ rw e record {
      capacity = h.capacity;
      bounded = ground (arith, e, h.bounded, h.capacity, length-append s.queue (job ∷ []));
      staffed = h.staffed;
      in_flight = h.in_flight;
      traced = λ g. omega (
        arith,
        h.traced g,
        tally-append g s.queue (job ∷ []),
        tally-append g s.intake (job ∷ []),
      );
      admitted = omega (arith, h.admitted, length-append s.intake (job ∷ []));
      ended = h.ended;
      drained = λ d q. ground (arith, h.drained d q);
    }
    | inr e ↦ rw e record {
      capacity = h.capacity;
      bounded = h.bounded;
      staffed = h.staffed;
      in_flight = h.in_flight;
      traced = h.traced;
      admitted = h.admitted;
      ended = h.ended;
      drained = h.drained;
    }
  ]

  received-IsSound :
      (s : Service J) (a b : List (Worker J)) (j : J) (js : List J)
      → s.queue ≡ j ∷ js
      → s.workers ≡ a ++ idle ∷ b
      → IsSound n depth s
      → IsSound n depth (record s { queue = js; workers = a ++ busy j ∷ b })
  unfolding live quit holding tally
  received-IsSound s a b j js p w h =
      let l = tally-replace live s.workers a b idle (busy j) w in
      let q = tally-replace quit s.workers a b idle (busy j) w in
      record {
        capacity = h.capacity;
        bounded = omega (arith, h.bounded, ap length p);
        staffed = omega (arith, h.staffed, l, q);
        in_flight = omega (arith, h.in_flight, l);
        traced = λ g. omega (
          arith,
          h.traced g,
          ap (tally g) p,
          tally-replace (holding g) s.workers a b idle (busy j) w,
        );
        admitted = h.admitted;
        ended = h.ended;
        drained = λ d r.
            absurd (omega (arith, ap length ((h.drained d (omega (arith, r, q))).1), ap length p));
      }

  finished-IsSound :
      (s : Service J) (a b : List (Worker J)) (j : J) (env : J → ℕ → Attempt)
      → s.workers ≡ a ++ busy j ∷ b
      → IsSound n depth s
      → IsSound n depth (record (run_job env j s) { workers = a ++ idle ∷ b })
  unfolding run_job live quit holding tally
  finished-IsSound s a b j env w h =
      let l = tally-replace live s.workers a b (busy j) idle w in
      let q = tally-replace quit s.workers a b (busy j) idle w in
      let r = run_with_retries-IsSettled (env j) s.policy.max_attempts s.log in
      record {
        capacity = h.capacity;
        bounded = h.bounded;
        staffed = omega (arith, h.staffed, l, q);
        in_flight = omega (arith, h.in_flight, l, r.intake.2);
        traced = λ g. omega (
          arith,
          h.traced g,
          tally-append g s.ran (j ∷ []),
          tally-replace (holding g) s.workers a b (busy j) idle w,
        );
        admitted = omega (arith, h.admitted, r.intake.0);
        ended = omega (arith, h.ended, r.ended, length-append s.ran (j ∷ []));
        drained = λ d z. h.drained d (omega (arith, z, q));
      }

  left-IsSound :
      (s : Service J) (a b : List (Worker J))
      → s.workers ≡ a ++ idle ∷ b
      → ((s.closed ≡ true) × (s.queue ≡ [])) ⊎ (s.ctx_done ≡ true)
      → IsSound n depth s
      → IsSound n depth (record s { workers = a ++ returned ∷ b; log = leave s.log })
  unfolding live quit holding leave
  left-IsSound s a b w c h =
      let l = tally-replace live s.workers a b idle returned w in
      let q = tally-replace quit s.workers a b idle returned w in
      record {
        capacity = h.capacity;
        bounded = h.bounded;
        staffed = omega (arith, h.staffed, l, q);
        in_flight = omega (arith, h.in_flight, l);
        traced =
            λ g. omega (arith, h.traced g, tally-replace (holding g) s.workers a b idle returned w);
        admitted = h.admitted;
        ended = h.ended;
        drained = λ d z. elim c [ inl e ↦ e | inr e ↦ ground (arith, d, e) ];
      }

  pub Step-IsSound : {s t : Service J} → Step s t → IsSound n depth s → IsSound n depth t
  Step-IsSound (submitted s job c) h = submitted-IsSound s job c h
  Step-IsSound (received s a b j js p w) h = received-IsSound s a b j js p w h
  Step-IsSound (finished s a b j env w) h = finished-IsSound s a b j env w h
  Step-IsSound (left s a b w c) h = left-IsSound s a b w c h
  Step-IsSound (canceled s c) h = record {
    capacity = h.capacity;
    bounded = h.bounded;
    staffed = h.staffed;
    in_flight = h.in_flight;
    traced = h.traced;
    admitted = h.admitted;
    ended = h.ended;
    drained = λ d _. ground arith;
  }
  Step-IsSound (stopped s c) h = record {
    capacity = h.capacity;
    bounded = h.bounded;
    staffed = h.staffed;
    in_flight = h.in_flight;
    traced = h.traced;
    admitted = h.admitted;
    ended = h.ended;
    drained = λ d q. (refl, (h.drained d q).1);
  }

  pub Reach-IsSound :
      {policy : RetryPolicy} {s : Service J} → Reach n depth policy s → IsSound n depth s
  unfolding start_workers new_processor live quit holding tally
  Reach-IsSound start = record {
    capacity = refl;
    bounded = omega arith;
    staffed =
        ground
          (arith, tally-replicate (live {J = J}) idle n, tally-replicate (quit {J = J}) idle n);
    in_flight = ground (arith, tally-replicate (live {J = J}) idle n);
    traced = λ g. none_held g n;
    admitted = refl;
    ended = refl;
    drained = λ d q. absurd (ground (arith, q, tally-replicate (quit {J = J}) idle n));
  }
  Reach-IsSound (next r q) = Step-IsSound q (Reach-IsSound r)
