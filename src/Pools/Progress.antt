-- ===== src/Pools/Progress.antt =====
-- 08-concurrency/examples/02-workerpool/main.go: which step comes next, and where a run ends.
use Prim.Native.String.{String}
use go_handbook_for_software.Base.{
  ℕ, ◌+◌, ◌*◌, ◌≤◌, ◌<◌, ◌≡◌, refl, ap, ◌⊎◌, inl, inr, true, List, [], ◌∷◌, ◌++◌, arith, length,
  Bool-cases,
}
use go_handbook_for_software.Pools.{
  Job, Outcome, Worker, idle, busy, returned, tally, live, holding, Pool, Step, handed, closed_in,
  sent, left, closed_out, collected, Reach,
}
use go_handbook_for_software.Pools.Tally.{tally-member, tally-length}
use go_handbook_for_software.Pools.Plain.{
  IsSound, weight, effort, still, steps_left, Reach-IsSound, Reach-steps, Step-steps_left,
}

-- Some worker waits, some worker holds a job, or all have returned.
pub data Staff {J : Type 0} (ws : List (Worker J)) : Type 0 where
  one_idle : (a b : List (Worker J)) → ws ≡ a ++ idle ∷ b → Staff ws
  one_busy : (a b : List (Worker J)) (j : J) → ws ≡ a ++ busy j ∷ b → Staff ws
  all_returned : tally live ws ≡ 0 → Staff ws

pub staff : {J : Type 0} (ws : List (Worker J)) → Staff ws
unfolding tally live
staff [] = all_returned refl
staff (idle ∷ ws) = one_idle [] ws refl
staff (busy j ∷ ws) = one_busy [] ws j refl
staff (returned ∷ ws) = elim (staff ws) [
  | one_idle a b e ↦ one_idle (returned ∷ a) b (ap (λ l. returned ∷ l) e)
  | one_busy a b j e ↦ one_busy (returned ∷ a) b j (ap (λ l. returned ∷ l) e)
  | all_returned e ↦ all_returned (omega (arith, e))
]

-- `out` is closed and empty, every worker has returned, and the caller has as many results for each
-- job's id as there are jobs with it.
pub record IsDone (jobs : List Job) (s : Pool) : Type 0 where
  pub closed : s.out_closed ≡ true
  pub empty : s.buffered ≡ []
  pub returned_all : tally live s.workers ≡ 0
  pub complete : (g : ℕ → ℕ) → tally (λ r. g r.job_id) s.received ≡ tally (λ j. g j.id) jobs

-- no worker holds a job once all have returned
pub holding-none :
    {J : Type 0} (g : J → ℕ) (ws : List (Worker J)) → tally live ws ≡ 0 → tally (holding g) ws ≡ 0
unfolding tally live holding
holding-none g [] e = refl
holding-none g (idle ∷ ws) e = absurd (omega (arith, e))
holding-none g (busy j ∷ ws) e = absurd (omega (arith, e))
holding-none g (returned ∷ ws) e = omega (arith, holding-none g ws (omega (arith, e)))

pub effort-none : {J : Type 0} (ws : List (Worker J)) → tally live ws ≡ 0 → tally effort ws ≡ 0
unfolding tally live effort
effort-none [] e = refl
effort-none (idle ∷ ws) e = absurd (omega (arith, e))
effort-none (busy j ∷ ws) e = absurd (omega (arith, e))
effort-none (returned ∷ ws) e = omega (arith, effort-none ws (omega (arith, e)))

pub empty-list : {A : Type 0} (xs : List A) → length xs ≡ 0 → xs ≡ []
empty-list [] _ = refl
empty-list (x ∷ xs) e = absurd (omega (arith, e))

-- A state is done, or a step leads on from it.
pub Moves : (did : ℕ → String → String) → List Job → Pool → Type 0
Moves did jobs s = IsDone jobs s ⊎ ((t : Pool) × Step did (length jobs) s t)

module _ (did : ℕ → String → String) (jobs : List Job) (n : ℕ) where
  -- a worker with a job in hand finds room in `out`
  room :
      (s : Pool) (a b : List (Worker Job)) (j : Job)
      → IsSound jobs n s
      → s.workers ≡ a ++ busy j ∷ b
      → length s.buffered < length jobs
  unfolding weight holding
  room s a b j h w = omega (
    arith,
    h.kept (λ _. 1),
    tally-length jobs,
    tally-length s.buffered,
    tally-member (holding (λ _. 1)) s.workers a b (busy j) w,
  )

  -- with `in` closed and every worker gone, only the closer and the caller are left
  last_steps :
      (s : Pool)
      → 1 ≤ n
      → IsSound jobs n s
      → tally live s.workers ≡ 0
      → s.buffered ≡ []
      → Moves did jobs s
  unfolding Moves weight tally
  last_steps s le h gone e = elim (Bool-cases s.out_closed) [
    | inr c ↦ inr (_, closed_out s gone c)
    | inl c ↦ elim (Bool-cases s.in_closed) [
      | inl i ↦ inl (record {
        closed = c;
        empty = e;
        returned_all = gone;
        complete = λ g. omega (
          arith,
          h.kept g,
          holding-none (λ j. g j.id) s.workers gone,
          ap (tally (λ r. g r.job_id)) e,
          ap (tally (λ j. g j.id)) (empty-list s.pending (h.all_sent i)),
        );
      })
      | inr i ↦ absurd (omega (arith, h.staffed, h.open_in i, gone))
    ]
  ]

  -- a waiting worker takes a job, or waits for the close, or returns
  idle_steps :
      (s : Pool) (a b : List (Worker Job)) (p : List Job)
      → s.pending ≡ p
      → s.workers ≡ a ++ idle ∷ b
      → Moves did jobs s
  unfolding Moves
  idle_steps s a b (j ∷ js) p w = inr (_, handed s a b j js p w)
  idle_steps s a b [] p w = elim (Bool-cases s.in_closed) [
    | inl i ↦ inr (_, left s a b w i)
    | inr i ↦ inr (_, closed_in s p i)
  ]

  moves :
      (s : Pool) (out : List Outcome)
      → s.buffered ≡ out
      → 1 ≤ n
      → IsSound jobs n s
      → Moves did jobs s
  unfolding Moves
  moves s (r ∷ rs) e le h = inr (_, collected s r rs e)
  moves s [] e le h = elim (staff s.workers) [
    | one_idle a b w ↦ idle_steps s a b s.pending refl w
    | one_busy a b j w ↦ inr (_, sent s a b j w (room s a b j h w))
    | all_returned gone ↦ last_steps s le h gone e
  ]

  -- nothing is left to do in a state that is done
  steps_left-done : (s : Pool) → 1 ≤ n → IsSound jobs n s → IsDone jobs s → steps_left s ≡ 0
  unfolding steps_left still
  steps_left-done s le h d = elim (Bool-cases s.in_closed) [
    | inl i ↦
        rw (i, d.closed) omega
          (arith, h.all_sent i, effort-none s.workers d.returned_all, ap length d.empty)
    | inr i ↦ absurd (omega (arith, h.staffed, h.open_in i, d.returned_all))
  ]

  -- With at least one worker, every run of the pool has exactly three steps for each job, one for each
  -- worker and two closes: before that number of steps a state has a next step, and after it `out` is
  -- closed and empty, every worker has returned and the caller has exactly one result for each job.
  pub run_delivers :
      {k : ℕ} {s : Pool}
      → 1 ≤ n
      → Reach did jobs n k s
      → (k ≤ 3 * length jobs + n + 2)
        × (k < 3 * length jobs + n + 2 → (t : Pool) × Step did (length jobs) s t)
        × (k ≡ 3 * length jobs + n + 2 → IsDone jobs s)
  unfolding Moves
  run_delivers {k} {s} le r =
      let h = Reach-IsSound did jobs n r in
      let m = moves s s.buffered refl le h in
      let c = Reach-steps did jobs n r in
      (
        omega (arith, c),
        λ lt. elim m [ inl d ↦ absurd (omega (arith, c, steps_left-done s le h d)) | inr q ↦ q ],
        λ e. elim m [ inl d ↦ d | inr q ↦ absurd (omega (arith, c, e, Step-steps_left did q.1)) ],
      )
