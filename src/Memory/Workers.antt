-- ===== src/Memory/Workers.antt =====
-- memwatch.go's Tracker: what LiveWorkers counts.
use go_handbook_for_software.Base.{
  ℕ, suc, ◌+◌, ◌≡◌, refl, ap, true, false, List, [], ◌∷◌, ◌++◌, arith, length, length-append,
}
use go_handbook_for_software.Memory.{
  Worker, Tracker, new_tracker, start_no_owner, start_worker, live_workers,
}

-- `Start`, a call of the function that it returned (a second call does nothing), the goroutine's way
-- out once its channel is closed, and `StartNoOwner`; the numbers count the calls of `Start` and the
-- goroutines that have gone.
pub data Step : Tracker → ℕ → Tracker → ℕ → Type 0 where
  started : (t : Tracker) (gone : ℕ) → Step t gone (start_worker t) gone
  quit :
      (t : Tracker) (gone : ℕ) (a b : List Worker) (w : Worker)
      → t.stop ≡ a ++ w ∷ b
      → Step t gone (record t { stop = a ++ record w { quitting = true } ∷ b }) gone
  exited :
      (t : Tracker) (gone : ℕ) (a b : List Worker) (w : Worker)
      → t.stop ≡ a ++ w ∷ b
      → w.quitting ≡ true
      → Step t gone (record t { stop = a ++ b }) (suc gone)
  started_ownerless : (t : Tracker) (gone : ℕ) → Step t gone (start_no_owner t) gone

pub data Reach : Tracker → ℕ → Type 0 where
  new : Reach new_tracker 0
  later : {t t' : Tracker} {n n' : ℕ} → Reach t n → Step t n t' n' → Reach t' n'

length-middle : (a b : List Worker) (w : Worker) → length (a ++ w ∷ b) ≡ length a + length b + 1
length-middle a b w = omega (arith, length-append a (w ∷ b))

Step-counts :
    {t t' : Tracker} {n n' : ℕ}
    → Step t n t' n'
    → live_workers t + n ≡ t.next
    → live_workers t' + n' ≡ t'.next
unfolding live_workers start_worker start_no_owner
Step-counts (started t n) h =
    omega (arith, h, length-append t.stop (record { id = t.next + 1; quitting = false } ∷ []))
Step-counts (quit t n a b w e) h =
    omega
      (arith, h, ap length e, length-middle a b w, length-middle a b (record w { quitting = true }))
Step-counts (exited t n a b w e _) h =
    omega (arith, h, ap length e, length-middle a b w, length-append a b)
Step-counts (started_ownerless t n) h = h

-- In every interleaving, LiveWorkers is the number of goroutines that `Start` began less those that
-- have gone; the goroutines of StartNoOwner are in no count.
pub live_workers-counts : {t : Tracker} {gone : ℕ} → Reach t gone → live_workers t + gone ≡ t.next
unfolding live_workers new_tracker
live_workers-counts new = refl
live_workers-counts (later r s) = Step-counts s (live_workers-counts r)
