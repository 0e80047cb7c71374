-- ===== src/Calculator.antt =====
-- 10-testing/examples/calculator/{calc,api}.go: the evaluator and its handler. A text is the list of
-- its bytes and an `int` its `int64` pattern. TrimSpace, Atoi and the JSON decoder are parameters;
-- the texts of errors and log lines are left out, but for the two that the handler answers with.
pub mod Operators
pub mod Answers
use go_handbook_for_software.Base.{
  ℕ, zero, suc, ◌+◌, ◌*◌, ◌/◌, ◌%◌, ◌^◌, Bool, true, false, ◌||◌, List, [], ◌∷◌, ◌++◌, Option, none,
  some, String, Result, ok, err, if◌then◌else◌, ◌==◌, take, drop, get_or, str_dec, ite,
}
use go_handbook_for_software.Base.Int64

-- `ErrDivideByZero`, and `ErrSyntax` with its position
pub data Error : Type 0 where
  divide_by_zero : Error
  empty_expression missing_operator bad_left : Error
  bad_right unknown_operator : ℕ → Error

-- `Add`
unfoldable pub add : ℕ → ℕ → ℕ
add a b = Int64.add a b

-- the product of two `int`s, which wraps
unfoldable pub mul : ℕ → ℕ → ℕ
mul a b = a * b % 2 ^ 64

-- the absolute value as a number
unfoldable pub magnitude : ℕ → ℕ
magnitude a = if Int64.lt a 0 then Int64.neg a else a

-- Go's `/`, which truncates toward zero, for a divisor that is not 0
unfoldable pub quotient : ℕ → ℕ → ℕ
unfolding magnitude
quotient a b =
    let q = magnitude a / magnitude b in
    if Int64.lt a 0
    then (if Int64.lt b 0 then q else Int64.neg q)
    else if Int64.lt b 0
    then Int64.neg q
    else q

-- `Divide`
unfoldable pub divide : ℕ → ℕ → Result Error ℕ
unfolding quotient
divide a b = if b == 0 then err divide_by_zero else ok (quotient a b)

-- a byte of "+-*/"
unfoldable pub is_op : ℕ → Bool
is_op b = b == 0x2b || b == 0x2d || b == 0x2a || b == 0x2f

-- `strings.IndexAny(…, "+-*/")`; -1 is `none`
unfoldable pub index_op : List ℕ → Option ℕ
unfolding is_op
index_op [] = none
index_op (b ∷ bs) =
    let rest = index_op bs in
    if is_op b then some 0 else elim rest [ none ↦ none | some i ↦ some (i + 1) ]

-- the switch on the operator
unfoldable pub apply_op : ℕ → ℕ → ℕ → ℕ → Result Error ℕ
unfolding add mul divide
apply_op op at left right =
    if op == 0x2b
    then ok (add left right)
    else if op == 0x2d
    then ok (Int64.sub left right)
    else if op == 0x2a
    then ok (mul left right)
    else if op == 0x2f
    then divide left right
    else err (unknown_operator at)

module _ (trim_space : List ℕ → List ℕ) (atoi : List ℕ → Option ℕ) where
  -- `Eval` once the operator is found at `at`
  unfoldable pub operate : List ℕ → ℕ → Result Error ℕ
  unfolding apply_op
  operate e at = elim (atoi (trim_space (take at e))) [
    | none ↦ err bad_left
    | some left ↦ elim (atoi (trim_space (drop (suc at) e))) [
      | none ↦ err (bad_right (at + 1))
      | some right ↦ apply_op (get_or e at 0) at left right
    ]
  ]

  -- `Eval` on the trimmed text
  unfoldable pub eval_trimmed : List ℕ → Result Error ℕ
  unfolding operate index_op
  eval_trimmed [] = err empty_expression
  eval_trimmed (c ∷ rest) = elim (index_op rest) [
    | none ↦ err missing_operator
    | some i ↦ operate (c ∷ rest) (i + 1)
  ]

  -- `Eval`
  unfoldable pub eval : List ℕ → Result Error ℕ
  unfolding eval_trimmed
  eval expr = eval_trimmed (trim_space expr)

-- `EvalResponse`
pub record EvalResponse : Type 0 where
  pub result : ℕ
  pub error : String

-- a member of the JSON object
pub data Member : Type 0 where
  result_member : ℕ → Member
  error_member : String → Member

-- the members that encoding/json writes: `omitempty` leaves a zero and an empty text out
unfoldable pub members : EvalResponse → List Member
members r =
    (if r.result == 0 then [] else result_member r.result ∷ [])
    ++ ite (str_dec r.error "") [] (error_member r.error ∷ [])

-- the handler once `Eval` has answered, with the text of a syntax error: the status and the response
unfoldable pub respond : (Error → String) → Result Error ℕ → ℕ × EvalResponse
respond text (ok v) = (200, record { result = v; error = "" })
respond text (err divide_by_zero) = (400, record { result = 0; error = "division by zero" })
respond text (err e) = (400, record { result = 0; error = text e })

-- the handler of `POST /eval`; a body that does not decode is `none`
unfoldable pub handle :
    (List ℕ → List ℕ) → (List ℕ → Option ℕ) → (Error → String) → Option (List ℕ) → ℕ × EvalResponse
unfolding respond
handle trim_space atoi text none = (400, record { result = 0; error = "malformed JSON" })
handle trim_space atoi text (some expr) = respond text (eval trim_space atoi expr)
