-- ===== src/Resilience/Tests.antt =====
-- The theorems about the breaker, the bulkhead and the retries at concrete inputs.
use go_handbook_for_software.Base.{
  ℕ, zero, suc, ◌≤◌, ◌≡◌, refl, true, false, [], ◌∷◌, String, arith, none, some,
}
use go_handbook_for_software.Resilience.{
  Breaker, new_breaker, record_outcome, Bulkhead, new_bulkhead, enter, Attempt, retry_turn, fits,
}
use go_handbook_for_software.Resilience.Trip.{record_all, trips_at_threshold}
use go_handbook_for_software.Resilience.Probe.{allow_all, one_probe}
use go_handbook_for_software.Resilience.Slots.{entered, Reach, start, next}
use go_handbook_for_software.Resilience.Attempts.{GoesOn}

abbrev closed : Breaker
closed = new_breaker 3 100

abbrev opened : Breaker
opened = record closed { failures = 3; open_until = 150 }

abbrev probing : Breaker
probing = record opened { half_open = true }

abbrev one_taken : Bulkhead
one_taken = record { slots = 2; taken = 1 }

abbrev failing : ℕ → Attempt String
failing k = record { result = some "down"; remaining = none; done = false }

failing-GoesOn : (i : ℕ) → i ≤ 2 → GoesOn failing (λ e. true) 4 i
unfolding retry_turn fits
failing-GoesOn zero h = ("down", refl, refl)
failing-GoesOn (suc zero) h = ("down", refl, refl)
failing-GoesOn (suc (suc zero)) h = ("down", refl, refl)
failing-GoesOn (suc (suc (suc i))) h = absurd (omega arith)

one_running : Reach 2 (enter false true (new_bulkhead 2)).0 1
unfolding enter
one_running = next start (entered (new_bulkhead 2) 0 false true refl)

trips_at_threshold_example :
    record_outcome 30 true (record_all ((10, false) ∷ (20, false) ∷ []) closed)
    ≡ record closed { failures = 0 }
trips_at_threshold_example =
    (trips_at_threshold ((10, false) ∷ (20, false) ∷ []) closed 30 (refl, (refl, tt)) refl
      (omega arith)).1

one_probe_example : allow_all (151 ∷ 152 ∷ 400 ∷ []) opened ≡ (probing, true ∷ false ∷ false ∷ [])
one_probe_example =
    one_probe 151 (152 ∷ 400 ∷ []) opened refl (λ e. absurd (omega arith)) (omega arith)
