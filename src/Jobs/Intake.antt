-- ===== src/Jobs/Intake.antt =====
-- The bounded queue of 04-backpressure's Processor, as steps of submitters, workers and `Stop`.
use go_handbook_for_software.Base.{
  ℕ, ◌+◌, ◌≤◌, ◌<◌, ◌≡◌, ◌≢◌, refl, ap, true, false, List, [], ◌∷◌, ◌++◌, arith, length,
  length-append,
}
use go_handbook_for_software.Jobs.{Processor, new_processor, submit, receive, finish_job, stop}

-- What the submitters, the workers and `Stop` do, one step at a time. (A send on a closed channel
-- would panic: a caller submits only before `Stop`.)
pub data Step {Job : Type 0} : Processor Job → Processor Job → Type 0 where
  submitted : (p : Processor Job) (job : Job) → p.closed ≡ false → Step p (submit job p).0
  received : (p : Processor Job) → p.queue ≢ [] → Step p (receive p.queue p)
  finished : (p : Processor Job) → 0 < p.running → Step p (finish_job p)
  stopped : (p : Processor Job) → p.closed ≡ false → Step p (stop p)

pub data Reach {Job : Type 0} (depth : ℕ) : Processor Job → Type 0 where
  start : Reach depth (new_processor depth)
  next : {p p' : Processor Job} → Reach depth p → Step p p' → Reach depth p'

-- The queue is within its depth, and each accepted job is queued, running or processed.
pub record IsCounted {Job : Type 0} (depth : ℕ) (p : Processor Job) : Type 0 where
  pub capacity : p.depth ≡ depth
  pub bounded : length p.queue ≤ depth
  pub counted : p.accepted ≡ length p.queue + p.running + p.processed

receive-IsCounted :
    {Job : Type 0} {depth : ℕ} (p : Processor Job) (q : List Job)
    → p.queue ≡ q
    → q ≢ []
    → IsCounted depth p
    → IsCounted depth (receive q p)
unfolding receive
receive-IsCounted p [] e n h = absurd (n refl)
receive-IsCounted p (job ∷ rest) e n h = record {
  capacity = h.capacity;
  bounded = omega (arith, ap length e, h.bounded);
  counted = omega (arith, ap length e, h.counted);
}

Step-IsCounted :
    {Job : Type 0} {depth : ℕ} {p p' : Processor Job}
    → Step p p'
    → IsCounted depth p
    → IsCounted depth p'
unfolding submit finish_job stop
Step-IsCounted (submitted p job _) h = ground (arith, length-append p.queue (job ∷ []))
Step-IsCounted (received p n) h = receive-IsCounted p p.queue refl n h
Step-IsCounted (finished p r) h = ground arith
Step-IsCounted (stopped p _) h = record {
  capacity = h.capacity;
  bounded = h.bounded;
  counted = h.counted;
}

-- In every interleaving of submitters, workers and `Stop`, the queue never holds more than its depth,
-- and the accepted jobs are exactly those in the queue, those that run and those processed.
pub Reach-IsCounted :
    {Job : Type 0} {depth : ℕ} {p : Processor Job} → Reach depth p → IsCounted depth p
Reach-IsCounted start = record { capacity = refl; bounded = omega arith; counted = refl }
Reach-IsCounted (next r s) = Step-IsCounted s (Reach-IsCounted r)

-- A job is shed exactly if the queue is full. A shed job leaves the queue as it is and is counted as
-- rejected; an accepted one goes to the end of the queue and is counted as accepted.
pub submit_decides :
    {Job : Type 0} (job : Job) (p : Processor Job)
    → (length p.queue < p.depth
        → submit job p
          ≡ (record p { queue = p.queue ++ job ∷ []; accepted = p.accepted + 1 }, true))
      × (p.depth ≤ length p.queue → submit job p ≡ (record p { rejected = p.rejected + 1 }, false))
unfolding submit
submit_decides job p = (λ l. ground arith, λ l. ground arith)
