-- ===== src/Payments/Transport.antt =====
-- 14-backend-development/examples/service/internal/payments/http.go: the transport over the Service.
-- JSON, the text of joined validation errors and the two `strings` functions of `Validate` are
-- arguments, and so is the mux of net/http: it tells a request's pattern and path id, or answers
-- itself. The calls on the ResponseWriter are those of Http.
use Prim.Native.String.{slice, len, ◌++◌ as ◌+++◌}
use text.Mathlib.Text.{starts_with}
use go_handbook_for_software.Base.{
  ℕ, false, not, List, [], ◌∷◌, ite, str_dec, Option, none, some, String, Result, ok, err,
  if◌then◌else◌,
}
use go_handbook_for_software.Http.{
  Event, set_header, write_header, write, Line, Ran, Handler, http_error, write_json, write_error,
  chain, recover, request_id,
}
use go_handbook_for_software.Payments.{
  Status, unset, charged, canceled, Payment, Violation, Error, not_found, insufficient_funds,
  forbidden, not_cancelable, invalid, other, ChargeInput, Customer, PaymentStore, charge_service,
  cancel_service,
}

-- `Identity`
pub record Identity : Type 0 where
  pub subject : String
  pub kind : String

-- `strings.TrimPrefix`
unfoldable pub trim_prefix : String → String → String
trim_prefix s p = if starts_with s p then slice s (len p) (len s) else s

-- `Identity.Customer`
unfoldable pub customer : Identity → Customer
customer id = record { id = trim_prefix id.subject "user:" }

-- a request: its Authorization header, its body, what the mux reads, and what the middleware and
-- the mux attach
pub record Request : Type 0 where
  pub authorization : String
  pub body : String
  pub target : String
  pub identity : Option Identity
  pub path_id : String

pub data Pattern : Type 0 where
  livez readyz post_payments post_cancel : Pattern

-- `paymentResponse`
pub record PaymentResponse : Type 0 where
  pub id : String
  pub customer_id : String
  pub amount_minor : ℕ
  pub currency : String
  pub status : String

-- the packages that the transport calls
pub record Wire : Type 0 where
  pub decode : String → Option ChargeInput
  pub encode : PaymentResponse → Option String
  pub message : List Violation → String
  pub trim_space : String → String
  pub to_upper : String → String
  pub mux : Request → Option (Pattern × String)
  pub unmatched : Request → List Event

-- `string(p.Status)`
abbrev pub status_text : Status → String
status_text unset = ""
status_text charged = "charged"
status_text canceled = "canceled"

-- `toResponse`
abbrev pub to_response : Payment → PaymentResponse
to_response p = record {
  id = p.id;
  customer_id = p.customer_id;
  amount_minor = p.amount_minor;
  currency = p.currency;
  status = status_text p.status;
}

-- a handler that returns after these calls
abbrev pub answer : {S : Type 0} → S → List Event × List Line → Ran S
answer s (events, logs) = record { state = s; events = events; logs = logs; panicked = false }

abbrev pub unauthorized : List Event
unauthorized = set_header "WWW-Authenticate" "Bearer realm=\"api\"" ∷ http_error "unauthorized" 401

abbrev pub bearer : String
bearer = "Bearer "

-- the switch of `authenticate` on the token
unfoldable pub identify : String → Option Identity
identify token =
    ite (str_dec token "admin-token") (some (record { subject = "admin:root"; kind = "admin" }))
      (if starts_with token "user:" then some (record { subject = token; kind = "user" }) else none)

module _ {S : Type 0} where
  -- the end of `authenticate`, once the token is read
  unfoldable pub attach : Handler Request S → Option Identity → Handler Request S
  attach next none r s = answer s (unauthorized, [])
  attach next (some id) r s = next (record r { identity = some id }) s

  -- `authenticate`
  unfoldable pub authenticate : Handler Request S → Handler Request S
  authenticate next r s =
      if not (starts_with r.authorization bearer)
      then answer s (unauthorized, [])
      else attach next (identify (trim_prefix r.authorization bearer)) r s

  -- `requireKind`
  unfoldable pub require_kind : String → Handler Request S → Handler Request S
  require_kind kind next r s = elim r.identity [
    | none ↦ answer s (http_error "forbidden" 403, [])
    | some id ↦ ite (str_dec id.kind kind) (next r s) (answer s (http_error "forbidden" 403, []))
  ]

  -- `GET /livez` and `GET /readyz`
  unfoldable pub health : Handler Request S
  health r s = answer s (write_header 200 ∷ write "ok\n" ∷ [], [])

module _ {S : Type 0} (store : PaymentStore S) (wire : Wire) (now : ℕ) where
  -- `mapError`
  unfoldable pub map_error : Error → Option (String × ℕ)
  map_error not_found = some ("payment not found", 404)
  map_error forbidden = some ("payment not found", 404)
  map_error insufficient_funds = some ("insufficient funds", 422)
  map_error not_cancelable = some ("payment not cancelable", 409)
  map_error (invalid vs) = some (wire.message vs, 422)
  map_error (other text) = none

  -- `writeError`
  abbrev pub failed : S → Error → Ran S
  failed s e = answer s (write_error (some map_error) e)

  -- `create` once the service has answered
  unfoldable pub created : S × Result Error Payment → Ran S
  created (s, err e) = failed s e
  created (s, ok p) = answer s (
    set_header "Location" ("/payments/" +++ p.id) ∷ write_json wire.encode 201 (to_response p),
    [],
  )

  -- `Handler.create`
  unfoldable pub create : Handler Request S
  create r s = elim (wire.decode r.body) [
    | none ↦ answer s (http_error "invalid request body" 400, [])
    | some input ↦ created (charge_service store wire.trim_space wire.to_upper now input s)
  ]

  -- `cancel` once the service has answered
  unfoldable pub cancelled : S × Option Error → Ran S
  cancelled (s, some e) = failed s e
  cancelled (s, none) = answer s (write_header 204 ∷ [], [])

  -- `Handler.cancel`
  unfoldable pub cancel : Handler Request S
  cancel r s = elim r.identity [
    | none ↦ answer s (http_error "unauthorized" 401, [])
    | some id ↦ cancelled (cancel_service store (customer id) r.path_id s)
  ]

  -- the policy table of `Routes`
  unfoldable pub handler_of : Pattern → Handler Request S
  handler_of livez = health
  handler_of readyz = health
  handler_of post_payments = require_kind "user" create
  handler_of post_cancel = require_kind "user" cancel

  -- the mux
  unfoldable pub serve_mux : Handler Request S
  serve_mux r s = elim (wire.mux r) [
    | none ↦ answer s (wire.unmatched r, [])
    | some (pattern, id) ↦ handler_of pattern (record r { path_id = id }) s
  ]

  -- `Handler.Routes` without metrics
  unfoldable pub routes : String → Handler Request S
  routes id = chain (authenticate serve_mux) (recover ∷ request_id id ∷ [])
