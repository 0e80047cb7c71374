-- ===== src/Telemetry.antt =====
-- 14-backend-development/examples/service/internal/platform/obshttp/obshttp.go: the RED metrics around
-- a handler and their route label; and internal/payments/metrics.go with the calls that service.go
-- makes of it. A metric is the list of the samples that are added to it. Spans, buckets and the
-- measured time are left out; the bytes of a text and the text of a number are parameters.
pub mod Counts
pub mod Labels
pub mod Business
pub mod Finals
pub mod Requests
mod Tests
use go_handbook_for_software.Base.{
  ℕ, ◌+◌, Bool, true, false, not, ◌&&◌, ◌||◌, List, [], ◌∷◌, ◌++◌, ite, str_dec, Option, none, some,
  String, Result, ok, err, if◌then◌else◌, ltb, leb, ◌==◌,
}
use go_handbook_for_software.Http.{
  Event, set_header, write_header, write, Handler, Ran, Line, request_id, recover, chain,
}
use go_handbook_for_software.Payments.{
  Error, invalid, Payment, Customer, ChargeInput, PaymentStore, validate, requested, cancel_read,
}
use go_handbook_for_software.Payments.Transport.{Request, Wire, routes}

-- `statusWriter` of obshttp
pub record StatusWriter : Type 0 where
  pub status : ℕ
  pub written : Bool

-- `statusWriter.WriteHeader` and `statusWriter.Write`
unfoldable pub record_call : Event → StatusWriter → StatusWriter
record_call (set_header k v) c = c
record_call (write_header code) c =
    if not c.written then record { status = code; written = true } else c
record_call (write text) c = if not c.written then record { status = 200; written = true } else c

-- the recorder after a handler's calls
unfoldable pub record_calls : List Event → StatusWriter → StatusWriter
record_calls [] c = c
record_calls (e ∷ es) c = record_calls es (record_call e c)

-- `statusWriter.code`
unfoldable pub code : StatusWriter → ℕ
code c = if c.status == 0 then 200 else c.status

-- What `Instrument` reads of a request: `Method`, `URL.Path` and `Pattern`.
pub record View : Type 0 where
  pub method : String
  pub path : String
  pub pattern : String

-- a sample added to `requests`, `durations` or `errors`, with its labels
pub data Sample : Type 0 where
  request : String → String → String → Sample
  duration : String → String → Sample
  error : String → String → Sample

-- `strings.Count(path, "/")`
unfoldable pub slashes : List ℕ → ℕ
slashes [] = 0
slashes (b ∷ bs) = if b == 0x2f then slashes bs + 1 else slashes bs

-- `strings.ContainsAny(path, "0123456789")`
unfoldable pub has_digit : List ℕ → Bool
has_digit [] = false
has_digit (b ∷ bs) = leb 0x30 b && leb b 0x39 || has_digit bs

-- `RoutePattern`
unfoldable pub route_pattern : (String → List ℕ) → View → String
route_pattern bytes r =
    ite (str_dec r.pattern "")
      (if leb (slashes (bytes r.path)) 2 && not (has_digit (bytes r.path))
        then r.path
        else "unmatched")
      r.pattern

module _ (bytes : String → List ℕ) (itoa : ℕ → String) where
  -- the samples of `Instrument` after the handler returned
  unfoldable pub samples : View → List Event → List Sample
  samples v events =
      let route = route_pattern bytes v in
      let status = code (record_calls events (record { status = 0; written = false })) in
      request v.method route (itoa status)
      ∷ duration v.method route
      ∷ (if leb 500 status then error v.method route ∷ [] else [])

  -- `Instrument`: a panic passes it before a sample is added
  unfoldable pub instrument :
      {Q S : Type 0} → (Q → View) → Handler Q S → Q → S → Ran S × List Sample
  unfolding samples
  instrument view next r s =
      let ran = next r s in (ran, if ran.panicked then [] else samples (view r) ran.events)

-- `Handler.Routes` with metrics: `Instrument` stands outside the chain
unfoldable pub observed_routes :
    {S : Type 0}
    → PaymentStore S
    → Wire
    → ℕ
    → (String → List ℕ)
    → (ℕ → String)
    → (Request → View)
    → String
    → Request
    → S
    → Ran S × List Sample
observed_routes store wire now bytes itoa view id =
    instrument bytes itoa view (routes store wire now id)

-- a sample of `charged` with its currency, of `failed` with its reason, or of the OpenTelemetry counter
-- `chargeOTel` with its currency and amount
pub data BusinessSample : Type 0 where
  charged failed : String → BusinessSample
  mirrored : String → ℕ → BusinessSample

-- `emitCharged`; a nil receiver is `none`, another one says whether its `chargeOTel` is set
unfoldable pub emit_charged : Option Bool → String → ℕ → List BusinessSample
emit_charged none currency amount_minor = []
emit_charged (some with_otel) currency amount_minor =
    charged currency ∷ (if with_otel then mirrored currency amount_minor ∷ [] else [])

-- `emitFailed`
unfoldable pub emit_failed : Option Bool → String → List BusinessSample
emit_failed none reason = []
emit_failed (some with_otel) reason = failed reason ∷ []

module _ {S : Type 0} (store : PaymentStore S) (attached : Option Bool) where
  -- `Service.Charge` once the store has answered
  unfoldable pub emit_answer :
      S × Result Error Payment → (S × Result Error Payment) × List BusinessSample
  unfolding emit_charged emit_failed
  emit_answer (s, err e) = ((s, err e), emit_failed attached "store")
  emit_answer (s, ok p) = ((s, ok p), emit_charged attached p.currency p.amount_minor)

  -- `Service.Charge` with its metrics
  unfoldable pub charge_metered :
      (String → String)
      → (String → String)
      → ℕ
      → ChargeInput
      → S
      → (S × Result Error Payment) × List BusinessSample
  unfolding emit_failed
  charge_metered trim_space to_upper now input s = elim (validate trim_space to_upper input) [
    | v ∷ vs ↦ ((s, err (invalid (v ∷ vs))), emit_failed attached "validation")
    | [] ↦ emit_answer (store.charge (requested now input) s)
  ]

  -- `Service.Cancel` with its metrics
  unfoldable pub cancel_metered : Customer → String → S → (S × Option Error) × List BusinessSample
  unfolding emit_failed
  cancel_metered actor payment_id s =
      let (s', found) = store.by_id payment_id s in
      elim found [
        | err e ↦ ((s', some e), emit_failed attached "not_found")
        | ok p ↦ (cancel_read store actor payment_id p s', [])
      ]
