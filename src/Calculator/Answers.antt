-- ===== src/Calculator/Answers.antt =====
-- api.go: the handler of the calculator and its response.
use go_handbook_for_software.Base.{ℕ, ◌≡◌, refl, [], String, Result, ok, err, str_dec}
use go_handbook_for_software.Calculator.{
  Error, divide_by_zero, empty_expression, missing_operator, bad_left, bad_right, unknown_operator,
  members, respond,
}

-- An expression whose value is 0 is answered with 200 and an object without members: `omitempty` drops
-- the result.
pub zero-has_no_members : (text : Error → String) → members (respond text (ok 0)).1 ≡ []
unfolding members respond str_dec
zero-has_no_members text = refl

-- The status is 200 exactly for a value, and 400 for every error of `Eval`.
pub respond-status :
    (text : Error → String) (r : Result Error ℕ)
    → (respond text r).0 ≡ elim r as (λ _. ℕ) [ ok v ↦ 200 | err e ↦ 400 ]
unfolding respond
respond-status text (ok v) = refl
respond-status text (err divide_by_zero) = refl
respond-status text (err empty_expression) = refl
respond-status text (err missing_operator) = refl
respond-status text (err bad_left) = refl
respond-status text (err (bad_right n)) = refl
respond-status text (err (unknown_operator n)) = refl
