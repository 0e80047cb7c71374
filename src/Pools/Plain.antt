-- ===== src/Pools/Plain.antt =====
-- 08-concurrency/examples/02-workerpool/main.go: what holds in every interleaving of the pool.
use Prim.Native.String.{String}
use go_handbook_for_software.Base.{
  ℕ, suc, ◌+◌, ◌*◌, ◌≡◌, refl, ap, ◌∙◌, Bool, true, false, List, [], ◌∷◌, arith, length,
  length-append,
}
use go_handbook_for_software.Pools.{
  Job, Worker, idle, busy, returned, tally, live, holding, Pool, run, result_of, Step, handed,
  closed_in, sent, left, closed_out, collected, Reach, start, next,
}
use go_handbook_for_software.Pools.Tally.{
  tally-append, tally-replace, tally-replicate, tally-member,
}

-- what a worker has still to do: 1 for its return, 2 for a job in hand
unfoldable pub effort : {J : Type 0} → Worker J → ℕ
effort idle = 1
effort (busy j) = 3
effort returned = 0

-- 1 for a worker that has returned
unfoldable pub quit : {J : Type 0} → Worker J → ℕ
quit idle = 0
quit (busy j) = 0
quit returned = 1

unfoldable pub still : Bool → ℕ
still true = 0
still false = 1

-- the steps that are left
unfoldable pub steps_left : Pool → ℕ
steps_left s =
    3 * length s.pending
    + still s.in_closed
    + tally effort s.workers
    + length s.buffered
    + still s.out_closed

-- the weight of all the jobs of a pool, wherever they are
unfoldable pub weight : (ℕ → ℕ) → Pool → ℕ
weight g s =
    tally (λ j. g j.id) s.pending
    + tally (holding (λ j. g j.id)) s.workers
    + tally (λ r. g r.job_id) s.buffered
    + tally (λ r. g r.job_id) s.received

pub record IsSound (jobs : List Job) (n : ℕ) (s : Pool) : Type 0 where
  pub kept : (g : ℕ → ℕ) → weight g s ≡ tally (λ j. g j.id) jobs
  pub staffed : tally live s.workers + tally quit s.workers ≡ n
  pub open_in : s.in_closed ≡ false → tally quit s.workers ≡ 0
  pub all_sent : s.in_closed ≡ true → length s.pending ≡ 0
  pub all_left : s.out_closed ≡ true → tally live s.workers ≡ 0

module _ (did : ℕ → String → String) where
  -- no job is lost or doubled by a step
  Step-weight : {c : ℕ} {s t : Pool} (g : ℕ → ℕ) → Step did c s t → weight g t ≡ weight g s
  unfolding weight holding result_of tally
  Step-weight g (handed s a b j js p w) = omega (
    arith,
    ap (tally (λ j. g j.id)) p,
    tally-replace (holding (λ j. g j.id)) s.workers a b idle (busy j) w,
  )
  Step-weight g (closed_in s _ _) = refl
  Step-weight g (sent s a b j w _) = omega (
    arith,
    tally-replace (holding (λ j. g j.id)) s.workers a b (busy j) idle w,
    tally-append (λ r. g r.job_id) s.buffered (result_of did (length a) j ∷ []),
  )
  Step-weight g (left s a b w _) =
      omega (arith, tally-replace (holding (λ j. g j.id)) s.workers a b idle returned w)
  Step-weight g (closed_out s _ _) = refl
  Step-weight g (collected s r rs e) =
      omega
        (arith, ap (tally (λ r. g r.job_id)) e, tally-append (λ r. g r.job_id) s.received (r ∷ []))

  -- every step leaves one step less
  pub Step-steps_left : {c : ℕ} {s t : Pool} → Step did c s t → suc (steps_left t) ≡ steps_left s
  unfolding steps_left effort still
  Step-steps_left (handed s a b j js p w) =
      omega (arith, ap length p, tally-replace effort s.workers a b idle (busy j) w)
  Step-steps_left (closed_in s _ e) = rw e omega arith
  Step-steps_left (sent s a b j w _) = omega (
    arith,
    tally-replace effort s.workers a b (busy j) idle w,
    length-append s.buffered (result_of did (length a) j ∷ []),
  )
  Step-steps_left (left s a b w _) =
      omega (arith, tally-replace effort s.workers a b idle returned w)
  Step-steps_left (closed_out s _ e) = rw e omega arith
  Step-steps_left (collected s r rs e) = omega (arith, ap length e)

module _ (did : ℕ → String → String) (jobs : List Job) (n : ℕ) where
  start-IsSound : IsSound jobs n (run jobs n)
  unfolding run weight holding live quit tally
  start-IsSound = record {
    kept = λ g. ground (arith, tally-replicate (holding (λ (j : Job). g j.id)) idle n);
    staffed =
        ground
          (arith, tally-replicate (live {J = Job}) idle n, tally-replicate (quit {J = Job}) idle n);
    open_in = λ _. ground (arith, tally-replicate (quit {J = Job}) idle n);
    all_sent = λ e. ground arith;
    all_left = λ e. ground arith;
  }

  Step-staffed :
      {c : ℕ} {s t : Pool}
      → Step did c s t
      → IsSound jobs n s
      → tally live t.workers + tally quit t.workers ≡ n
  unfolding live quit
  Step-staffed (handed s a b j js p w) h = omega (
    arith,
    tally-replace live s.workers a b idle (busy j) w,
    tally-replace quit s.workers a b idle (busy j) w,
    h.staffed,
  )
  Step-staffed (closed_in s _ _) h = h.staffed
  Step-staffed (sent s a b j w _) h = omega (
    arith,
    tally-replace live s.workers a b (busy j) idle w,
    tally-replace quit s.workers a b (busy j) idle w,
    h.staffed,
  )
  Step-staffed (left s a b w _) h = omega (
    arith,
    tally-replace live s.workers a b idle returned w,
    tally-replace quit s.workers a b idle returned w,
    h.staffed,
  )
  Step-staffed (closed_out s _ _) h = h.staffed
  Step-staffed (collected s r rs e) h = h.staffed

  Step-open_in :
      {c : ℕ} {s t : Pool}
      → Step did c s t
      → IsSound jobs n s
      → t.in_closed ≡ false
      → tally quit t.workers ≡ 0
  unfolding quit
  Step-open_in (handed s a b j js p w) h e =
      omega (arith, tally-replace quit s.workers a b idle (busy j) w, h.open_in e)
  Step-open_in (closed_in s _ _) h e = ground arith
  Step-open_in (sent s a b j w _) h e =
      omega (arith, tally-replace quit s.workers a b (busy j) idle w, h.open_in e)
  Step-open_in (left s a b w c) h e = ground arith
  Step-open_in (closed_out s _ _) h e = h.open_in e
  Step-open_in (collected s r rs _) h e = h.open_in e

  Step-all_sent :
      {c : ℕ} {s t : Pool}
      → Step did c s t
      → IsSound jobs n s
      → t.in_closed ≡ true
      → length t.pending ≡ 0
  Step-all_sent (handed s a b j js p w) h e = omega (arith, ap length p, h.all_sent e)
  Step-all_sent (closed_in s p _) h e = ap length p
  Step-all_sent (sent s a b j w _) h e = h.all_sent e
  Step-all_sent (left s a b w _) h e = h.all_sent e
  Step-all_sent (closed_out s _ _) h e = h.all_sent e
  Step-all_sent (collected s r rs _) h e = h.all_sent e

  Step-all_left :
      {c : ℕ} {s t : Pool}
      → Step did c s t
      → IsSound jobs n s
      → t.out_closed ≡ true
      → tally live t.workers ≡ 0
  unfolding live
  Step-all_left (handed s a b j js p w) h e =
      absurd (omega (arith, tally-member live s.workers a b idle w, h.all_left e))
  Step-all_left (closed_in s _ _) h e = h.all_left e
  Step-all_left (sent s a b j w _) h e =
      absurd (omega (arith, tally-member live s.workers a b (busy j) w, h.all_left e))
  Step-all_left (left s a b w _) h e =
      absurd (omega (arith, tally-member live s.workers a b idle w, h.all_left e))
  Step-all_left (closed_out s q _) h e = q
  Step-all_left (collected s r rs _) h e = h.all_left e

  pub Reach-IsSound : {k : ℕ} {s : Pool} → Reach did jobs n k s → IsSound jobs n s
  Reach-IsSound start = start-IsSound
  Reach-IsSound (next r q) =
      let h = Reach-IsSound r in
      record {
        kept = λ g. Step-weight did g q ∙ h.kept g;
        staffed = Step-staffed q h;
        open_in = Step-open_in q h;
        all_sent = Step-all_sent q h;
        all_left = Step-all_left q h;
      }

  -- The number of steps of a run of the pool is fixed: what it has done and what is left.
  pub Reach-steps :
      {k : ℕ} {s : Pool} → Reach did jobs n k s → k + steps_left s ≡ 3 * length jobs + n + 2
  unfolding steps_left run effort still
  Reach-steps start = ground (arith, tally-replicate (effort {J = Job}) idle n)
  Reach-steps (next r q) = omega (arith, Reach-steps r, Step-steps_left did q)
