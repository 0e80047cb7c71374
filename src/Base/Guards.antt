-- ===== src/Base/Guards.antt =====
-- Chains of guards: each stage either fails with an error or goes on. What an `ok` at the end says of
-- every stage, and back.
use mathlib.Core.Path.{◌≡◌, refl, ap, ◌∙◌}
use mathlib.Core.Logic.{ite, ◌↔◌}
use mathlib.Core.Bool.{Bool, true, false, not}
use mathlib.Core.Option.{Option, none, some, some-injective}
use go_handbook_for_software.Base.Tests.{if◌then◌else◌, none≢some}
use go_handbook_for_software.Base.Results.{Result, ok, err}

pub ok-injective : {E A : Type 0} {x y : A} → Path (Result E A) (ok x) (ok y) → x ≡ y
ok-injective e = cc

module _ {E A : Type 0} (e : E) (a : A) where
  pub err≢ok : {e' : E} {a' : A} → err e' ≡ ok a' → ⊥
  err≢ok h = cc

  -- the value that a stage needs is there
  pub guard_some :
      {X : Type 0} (o : Option X) (f : X → Result E A)
      → (elim o as (λ _. Result E A) [ none ↦ err e | some x ↦ f x ] ≡ ok a)
        ↔ ((x : X) × (o ≡ some x) × (f x ≡ ok a))
  guard_some none f = (λ h. absurd (err≢ok h), λ (x, q, h). absurd (none≢some q))
  guard_some (some x) f = (λ h. (x, refl, h), λ (y, q, h). ap f (some-injective x y q) ∙ h)

  -- the decision of a stage is yes
  pub guard_ite :
      {P : Type 0} (d : Dec P) (r : Result E A) → (ite d r (err e) ≡ ok a) ↔ (P × (r ≡ ok a))
  guard_ite (yes p) r = (λ h. (p, h), λ h. h.1)
  guard_ite (no n) r = (λ h. absurd (err≢ok h), λ h. absurd (n h.0))

  -- the decision of a stage is no
  pub guard_ite_not :
      {P : Type 0} (d : Dec P) (r : Result E A) → (ite d (err e) r ≡ ok a) ↔ ((¬ P) × (r ≡ ok a))
  guard_ite_not (yes p) r = (λ h. absurd (err≢ok h), λ h. absurd (h.0 p))
  guard_ite_not (no n) r = (λ h. (n, h), λ h. h.1)

  -- the test of a stage is true
  pub guard_if :
      (b : Bool) (r : Result E A)
      → ((if not b then err e else r) ≡ ok a) ↔ ((b ≡ true) × (r ≡ ok a))
  guard_if true r = (λ h. (refl, h), λ h. h.1)
  guard_if false r = (λ h. absurd (err≢ok h), λ h. cc)
