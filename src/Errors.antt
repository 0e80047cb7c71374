-- ===== src/Errors.antt =====
-- 05-errors/examples: the error design of errorslib/errors.go, and the payment service with its
-- mapping of errors to responses (service/service.go). An error is its chain. Amounts are `int64`
-- patterns. JSON decoding is an argument of the handler: its result. Log lines are left out.
pub mod Mapping
mod Tests
use Prim.Native.String.{len, ◌++◌ as append}
use go_handbook_for_software.Base.{
  ℕ, Bool, true, false, not, ◌||◌, List, [], ◌∷◌, ◌++◌, ite, str_dec, Option, none, some, String,
  Result, ok, err, if◌then◌else◌, ◌==◌,
}
use go_handbook_for_software.Base.Int64

-- `Code`
pub data Code : Type 0 where
  code_unknown code_not_found code_invalid code_conflict code_unavailable : Code

-- `DomainError`, its cause aside
pub record DomainError : Type 0 where
  pub op : String
  pub reason : String
  pub code : Code

-- An error value: `not_found_sentinel` is `ErrNotFound`, `network t` a `net.Error` with `Timeout()`
-- answering `t`, `wrapped` an error of `%w`, and a domain error comes without and with a cause.
pub data Cause : Type 0 where
  plain : String → Cause
  not_found_sentinel canceled deadline_exceeded : Cause
  network : Bool → Cause
  wrapped : String → Cause → Cause
  domain : DomainError → Cause
  domain_over : DomainError → Cause → Cause

-- `NotFound`
abbrev pub not_found : String → Cause
not_found what = wrapped what not_found_sentinel

-- `Load`
unfoldable pub load : String → Result Cause String
load id = err (not_found (append "user " id))

-- `IsNotFound`
unfoldable pub is_not_found : Cause → Bool
is_not_found (plain s) = false
is_not_found not_found_sentinel = true
is_not_found canceled = false
is_not_found deadline_exceeded = false
is_not_found (network t) = false
is_not_found (wrapped s c) = is_not_found c
is_not_found (domain d) = false
is_not_found (domain_over d c) = is_not_found c

-- `Wrap`
unfoldable pub wrap : String → Code → String → Option Cause → Cause
wrap op code reason none = domain (record { op = op; reason = reason; code = code })
wrap op code reason (some c) = domain_over (record { op = op; reason = reason; code = code }) c

-- the test for the two context errors in `Retryable`
unfoldable pub is_context : Cause → Bool
is_context (plain s) = false
is_context not_found_sentinel = false
is_context canceled = true
is_context deadline_exceeded = true
is_context (network t) = false
is_context (wrapped s c) = is_context c
is_context (domain d) = false
is_context (domain_over d c) = is_context c

-- `errors.As(err, &de)`: the first domain error of the chain
unfoldable pub as_domain : Cause → Option DomainError
as_domain (plain s) = none
as_domain not_found_sentinel = none
as_domain canceled = none
as_domain deadline_exceeded = none
as_domain (network t) = none
as_domain (wrapped s c) = as_domain c
as_domain (domain d) = some d
as_domain (domain_over d c) = some d

-- `errors.As(err, &nerr)` and `nerr.Timeout()`; where a context error, which also is a network error,
-- is in the chain, the code does not come here
unfoldable pub times_out : Cause → Bool
times_out (plain s) = false
times_out not_found_sentinel = false
times_out canceled = false
times_out deadline_exceeded = true
times_out (network t) = t
times_out (wrapped s c) = times_out c
times_out (domain d) = false
times_out (domain_over d c) = times_out c

unfoldable pub is_unavailable : Code → Bool
is_unavailable code_unknown = false
is_unavailable code_not_found = false
is_unavailable code_invalid = false
is_unavailable code_conflict = false
is_unavailable code_unavailable = true

-- `Retryable`
unfoldable pub retryable : Cause → Bool
retryable c =
    if is_context c
    then false
    else elim (as_domain c) [ some d ↦ is_unavailable d.code | none ↦ times_out c ]

-- `PaymentRequest`
pub record PaymentRequest : Type 0 where
  pub idempotency_key : String
  pub amount_minor : ℕ
  pub currency : String

-- the messages that `validate` joins
unfoldable pub validate : PaymentRequest → List String
validate r =
    ite (str_dec r.idempotency_key "") ("idempotency_key is required" ∷ []) []
    ++ (if Int64.le r.amount_minor 0 then "amount_minor must be positive" ∷ [] else [])
    ++ (if not (len r.currency == 3) then "currency must be a 3-letter code" ∷ [] else [])

-- `PaymentService.Process`; the first argument is `ctx.Err()`
unfoldable pub process : Option Cause → PaymentRequest → Option Cause
process (some e) req = some (wrap "authorize" code_unavailable "request canceled" (some e))
process none req =
    if Int64.lt 10_000_000 req.amount_minor
    then some (wrap "authorize" code_invalid "amount exceeds per-payment limit" none)
    else none

-- A response: its status, whether Retry-After is set, and the lines of its body.
pub record Response : Type 0 where
  pub status : ℕ
  pub retry_after : Bool
  pub body : List String

abbrev pub plain_response : ℕ → String → Response
plain_response status text = record { status = status; retry_after = false; body = text ∷ [] }

abbrev pub try_later : Response
try_later = record { status = 503; retry_after = true; body = "temporarily unavailable" ∷ [] }

-- the last two cases of `writeError`
unfoldable pub write_unclassified : Cause → Response
write_unclassified c = if retryable c then try_later else plain_response 500 "internal error"

-- the cases of `writeError` for a domain error
unfoldable pub write_domain : DomainError → Code → Cause → Response
write_domain d code_unknown c = write_unclassified c
write_domain d code_not_found c = plain_response 404 "resource not found"
write_domain d code_invalid c = plain_response 400 d.reason
write_domain d code_conflict c = plain_response 409 "conflicting state"
write_domain d code_unavailable c = try_later

-- `writeError`
unfoldable pub write_error : Cause → Response
unfolding write_domain
write_error c = elim (as_domain c) [
  | some d ↦ write_domain d d.code c
  | none ↦ write_unclassified c
]

respond : Option Cause → Response
respond none = record { status = 201; retry_after = false; body = [] }
respond (some c) = write_error c

answer : Option Cause → PaymentRequest → List String → Response
answer ctx_err req [] = respond (process ctx_err req)
answer ctx_err req (v ∷ vs) = record { status = 400; retry_after = false; body = v ∷ vs }

-- the handler of `newHandler`; `none` is a body that does not decode
unfoldable pub serve : Option Cause → Option PaymentRequest → Response
unfolding answer respond
serve ctx_err none = plain_response 400 "malformed JSON body"
serve ctx_err (some req) = answer ctx_err req (validate req)
