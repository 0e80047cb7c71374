-- ===== src/Telemetry/Requests.antt =====
-- The payment routes under `Instrument`: transport's Routes with metrics.
use go_handbook_for_software.Base.{ℕ, ◌<◌, ◌≤◌, ◌≡◌, false, List, [], ◌∷◌, String, All}
use go_handbook_for_software.Http.{respond, no_response}
use go_handbook_for_software.Http.Status.{IsFinal}
use go_handbook_for_software.Payments.{PaymentStore}
use go_handbook_for_software.Payments.Transport.{Request, Wire, routes}
use go_handbook_for_software.Telemetry.{
  View, request, duration, error, route_pattern, observed_routes, instrument,
}
use go_handbook_for_software.Telemetry.Counts.{answered, instrument_counts}
use go_handbook_for_software.Telemetry.Finals.{Finals-routes}

-- Every request to the payment routes, rejected and panicking ones included, is answered as without
-- metrics, lets no panic pass, and is counted once: one request sample with the status that is sent,
-- one duration sample, and one error sample exactly if that status is at least 500. The mux is taken
-- to answer what it does not match with final statuses.
pub observed_routes_count :
    {S : Type 0} (store : PaymentStore S) (wire : Wire) (now : ℕ) (bytes : String → List ℕ)
    (itoa : ℕ → String) (view : Request → View) (id : String) (r : Request) (s : S)
    → ((q : Request) → All IsFinal (wire.unmatched q))
    → let out = observed_routes store wire now bytes itoa view id r s in
      let v = view r in
      let route = route_pattern bytes v in
      let status = answered ((respond out.0.events no_response).status) in
      (out.0 ≡ routes store wire now id r s)
      × (out.0.panicked ≡ false)
      × (status < 500 → out.1 ≡ request v.method route (itoa status) ∷ duration v.method route ∷ [])
      × (500 ≤ status
          → out.1
            ≡ request v.method route (itoa status)
              ∷ duration v.method route
              ∷ error v.method route
              ∷ [])
unfolding observed_routes instrument
observed_routes_count store wire now bytes itoa view id r s h =
    let f = Finals-routes store wire now h id r s in
    let c = instrument_counts bytes itoa view (routes store wire now id) r s f.0 in
    let counted = c.2 f.1 in (c.0, f.1, counted.0, counted.1)
