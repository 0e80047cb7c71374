-- ===== src/Resilience/Trip.antt =====
-- The closed breaker and its threshold.
use go_handbook_for_software.Base.{
  ℕ, ◌+◌, ◌<◌, ◌≡◌, Bool, true, false, List, [], ◌∷◌, arith, length, All,
}
use go_handbook_for_software.Resilience.{Breaker, allow, record_outcome}

-- Outcomes in order, each with the clock reading of `Record`.
unfoldable pub record_all : List (ℕ × Bool) → Breaker → Breaker
record_all [] b = b
record_all ((now, success) ∷ os) b = record_all os (record_outcome now success b)

-- failures only
abbrev pub AllFailed : List (ℕ × Bool) → Type 0
AllFailed = All (λ (o : ℕ × Bool). o.1 ≡ false)

record_all_failed :
    (os : List (ℕ × Bool)) (b : Breaker)
    → AllFailed os
    → b.half_open ≡ false
    → b.failures + length os < b.threshold
    → record_all os b ≡ record b { failures = b.failures + length os }
unfolding record_all record_outcome
record_all_failed [] b f h lt = ground arith
record_all_failed ((t, s) ∷ os) b f h lt =
    ground (arith, record_all_failed os (record b { failures = b.failures + 1 }) f.1 h)

-- Failures that do not reach the threshold leave a closed breaker closed, and are counted. A success
-- after them sets the count back to 0. The failure that reaches the threshold opens the breaker until
-- the cooldown after it, and until then `Allow` refuses every call and changes nothing.
pub trips_at_threshold :
    (os : List (ℕ × Bool)) (b : Breaker) (now : ℕ)
    → AllFailed os
    → b.half_open ≡ false
    → b.failures + length os < b.threshold
    → let counted = record b { failures = b.failures + length os } in
      (record_all os b ≡ counted)
      × (record_outcome now true (record_all os b) ≡ record b { failures = 0 })
      × (b.failures + length os + 1 ≡ b.threshold
          → let opened = record_outcome now false (record_all os b) in
            (opened.open_until ≡ now + b.cooldown)
            × (opened.half_open ≡ false)
            × ((t : ℕ) → t < now + b.cooldown → allow t opened ≡ (opened, false)))
unfolding record_all record_outcome allow
trips_at_threshold os b now f h lt =
    let e = record_all_failed os b f h lt in
    (e, rw e (ground arith), λ n. rw e (ground arith, ground arith, λ t l. ground arith))
