-- ===== src/Resilience/Attempts.antt =====
-- `Retry`: its calls, and how it ends.
use go_handbook_for_software.Base.{
  ℕ, zero, suc, ◌+◌, ◌≤◌, ◌<◌, ◌≡◌, ap, ◌∙◌, Bool, true, Option, none, some, sym, subst, arith,
  Option-cases, inl, inr,
}
use native.Mathlib.Nat.{add-zero, zero-add}
use go_handbook_for_software.Resilience.{
  Attempt, success, exhausted, panicked, retry_turn, retry_loop, retry,
}

module _ {E : Type 0} (env : ℕ → Attempt E) (is_retryable : E → Bool) (base : ℕ) where
  -- the turn of this attempt fails and lets the loop go on
  abbrev pub GoesOn : ℕ → Type 0
  GoesOn k = (e : E) × ((env k).result ≡ some e) × (retry_turn is_retryable base k (env k) e ≡ none)

  calls-le :
      (left k : ℕ) (last : Option E) → (retry_loop env is_retryable base left k last).1 ≤ left
  unfolding retry_loop
  calls-le zero k last = omega arith
  calls-le (suc left) k last = elim (Option-cases ((env k).result)) [
    | inl p ↦ ground (arith, p)
    | inr (e, p) ↦ ground (arith, p, calls-le left (k + 1) (some e))
  ]

  success-of :
      (left k : ℕ) (last : Option E) (m : ℕ)
      → m < left
      → ((i : ℕ) → i < m → GoesOn (k + i))
      → (env (k + m)).result ≡ none
      → retry_loop env is_retryable base left k last ≡ (success, m + 1)
  unfolding retry_loop
  success-of zero k last m h g s = absurd (omega arith)
  success-of (suc left) k last zero h g s =
      ground (arith, subst (λ n. (env n).result ≡ none) (add-zero k) s)
  success-of (suc left) k last (suc m) h g s =
      let (e, p, q) = subst GoesOn (add-zero k) (g 0 (omega arith)) in
      let ih =
        success-of left (k + 1) (some e) m (omega arith)
          (λ i l. subst GoesOn (shift i) (g (suc i) (omega arith)))
          (subst (λ n. (env n).result ≡ none) (shift m) s) in
      ground (arith, p, q, ih)
    where
      shift : (i : ℕ) → k + suc i ≡ k + 1 + i
      shift i = omega arith

  exhausted-of :
      (left k : ℕ) (last : Option E)
      → ((i : ℕ) → i ≤ left → GoesOn (k + i))
      → retry_loop env is_retryable base (suc left) k last
        ≡ (exhausted (env (k + left)).result, suc left)
  unfolding retry_loop
  exhausted-of zero k last g =
      let (e, p, q) = subst GoesOn (add-zero k) (g 0 (omega arith)) in
      rw add-zero (ground (arith, p, q))
  exhausted-of (suc left) k last g =
      let (e, p, q) = subst GoesOn (add-zero k) (g 0 (omega arith)) in
      let ih =
        exhausted-of left (k + 1) (some e)
          (λ i l. subst GoesOn (shift i) (g (suc i) (omega arith))) in
      ground (arith, p, q, ih, ap (λ n. (env n).result) (shift left))
    where
      shift : (i : ℕ) → k + suc i ≡ k + 1 + i
      shift i = omega arith

  -- `Retry` calls its operation at most `maxAttempts` times, whatever happens. If each attempt before
  -- the `m`-th fails and goes on, and the `m`-th (from 0, below the cap) succeeds, it returns success
  -- after `m + 1` calls. If every attempt fails and goes on, it makes all of them and then reports
  -- exhaustion with the error of the last.
  pub retry_attempts :
      (cap : ℕ)
      → ((retry env is_retryable base cap).1 ≤ cap)
        × ((m : ℕ)
            → m < cap
            → ((i : ℕ) → i < m → GoesOn i)
            → (env m).result ≡ none
            → retry env is_retryable base cap ≡ (success, m + 1))
        × ((n : ℕ)
            → cap ≡ suc n
            → ((i : ℕ) → i ≤ n → GoesOn i)
            → retry env is_retryable base cap ≡ (exhausted (env n).result, cap))
  unfolding retry
  retry_attempts cap = (
    calls-le cap 0 none,
    λ m l g s.
        success-of cap 0 none m l (λ i h. subst GoesOn (sym (zero-add i)) (g i h))
          (subst (λ n. (env n).result ≡ none) (sym (zero-add m)) s),
    λ n c g. rw c (
        exhausted-of n 0 none (λ i h. subst GoesOn (sym (zero-add i)) (g i h))
        ∙ ap (λ (i : ℕ). (exhausted (env i).result, suc n)) (zero-add n)),
  )

  -- With a base below two nanoseconds, a retryable failure of the first attempt that the budget
  -- allows to back off makes `Retry` panic: half the backoff is no positive bound for the jitter.
  pub retry_panics :
      (cap : ℕ) (e : E)
      → 0 < cap
      → base < 2
      → (env 0).result ≡ some e
      → (env 0).remaining ≡ none
      → is_retryable e ≡ true
      → retry env is_retryable base cap ≡ (panicked, 1)
  unfolding retry retry_loop retry_turn
  retry_panics zero e c b r d t = absurd (omega arith)
  retry_panics (suc cap) e c b r d t = ground (arith, r, d, t)
