-- ===== src/Generics/Patience.antt =====
-- The generic `Retry`.
use native.Mathlib.Nat.{add-zero, zero-add}
use go_handbook_for_software.Base.{
  ℕ, zero, suc, ◌+◌, ◌<◌, ◌-◌, ◌≡◌, refl, ap, sym, subst, ◌∙◌, true, false, none, some, arith, ok,
  err,
}
use go_handbook_for_software.Base.Int64
use go_handbook_for_software.Generics.{Attempt, retry_loop, retry}

module _ {E T : Type 0} (env : ℕ → Attempt E T) where
  -- attempt `k` fails with a live context, a positive delay, and no cancelation during it
  pub record GoesOn (k : ℕ) : Type 0 where
    pub error : E
    pub fails : (env k).result ≡ err error
    pub alive : (env k).dead ≡ none
    pub patient : Int64.le (env k).delay 0 ≡ false
    pub waits : (env k).dies ≡ none

  goes_on : (fuel k : ℕ) → GoesOn k → retry_loop env (suc fuel) k ≡ retry_loop env fuel (k + 1)
  unfolding retry_loop
  goes_on fuel k g = ground (arith, g.fails, g.alive, g.patient, g.waits)

  -- the attempts that go on are passed over
  passed :
      (m fuel k : ℕ)
      → ((i : ℕ) → i < m → GoesOn (k + i))
      → retry_loop env (m + fuel) k ≡ retry_loop env fuel (k + m)
  passed zero fuel k g = rw (add-zero k, zero-add fuel) refl
  passed (suc m) fuel k g = rw (shift fuel) (
      goes_on (m + fuel) k (subst GoesOn (add-zero k) (g 0 (omega arith)))
      ∙ passed m fuel (k + 1) (λ i h. subst GoesOn (next i) (g (suc i) (omega arith)))
      ∙ ap (retry_loop env fuel) (sym (next m)))
    where
      next : (i : ℕ) → k + suc i ≡ k + 1 + i
      next i = omega arith

      shift : (f : ℕ) → suc m + f ≡ suc (m + f)
      shift f = omega arith

  arrives :
      (m fuel : ℕ)
      → ((i : ℕ) → i < m → GoesOn i)
      → retry env (m + suc fuel) ≡ retry_loop env (suc fuel) m
  unfolding retry
  arrives m fuel g =
      passed m (suc fuel) 0 (λ i h. subst GoesOn (sym (zero-add i)) (g i h))
      ∙ ap (retry_loop env (suc fuel)) (zero-add m)

  -- What `Retry` comes to at attempt `m`, from 0 on.
  pub record Ending (m fuel : ℕ) : Type 0 where
    pub succeeds : (v : T) → (env m).result ≡ ok v → retry env fuel ≡ some (ok v, m + 1)
    pub context_dead :
        (e c : E)
        → (env m).result ≡ err e
        → (env m).dead ≡ some c
        → retry env fuel ≡ some (err c, m + 1)
    pub out_of_patience :
        (e : E)
        → (env m).result ≡ err e
        → (env m).dead ≡ none
        → Int64.le (env m).delay 0 ≡ true
        → retry env fuel ≡ some (err e, m + 1)
    pub context_dies :
        (e c : E)
        → (env m).result ≡ err e
        → (env m).dead ≡ none
        → Int64.le (env m).delay 0 ≡ false
        → (env m).dies ≡ some c
        → retry env fuel ≡ some (err c, m + 1)

  arrives-Ending : (m fuel : ℕ) → ((i : ℕ) → i < m → GoesOn i) → Ending m (m + suc fuel)
  unfolding retry_loop
  arrives-Ending m fuel g =
      let at = arrives m fuel g in
      record {
        succeeds = λ v r. at ∙ ground (arith, r);
        context_dead = λ e c r d. at ∙ ground (arith, r, d);
        out_of_patience = λ e r d p. at ∙ ground (arith, r, d, p);
        context_dies = λ e c r d p w. at ∙ ground (arith, r, d, p, w);
      }

  -- If every attempt before attempt `m`, from 0 on, fails with a live context, a positive delay and no
  -- cancelation during the delay, then for any fuel above `m`: a success of attempt `m` makes `Retry`
  -- return its value; a failure with a dead context, the context's error; a failure with a live context
  -- and a delay that is not positive, the error of this attempt; and a context that dies during a
  -- positive delay, the context's error. The operation has then been called `m + 1` times.
  pub retry_ends : (m fuel : ℕ) → m < fuel → ((i : ℕ) → i < m → GoesOn i) → Ending m fuel
  retry_ends m fuel l g =
      let below : m + suc (fuel - suc m) ≡ fuel = omega arith in
      subst (Ending m) below (arrives-Ending m (fuel - suc m) g)
