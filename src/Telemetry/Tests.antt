-- ===== src/Telemetry/Tests.antt =====
-- The theorems about the telemetry at concrete inputs. An id is a tally of its number.
use Prim.Native.String.{◌++◌}
use go_handbook_for_software.Base.{
  ℕ, zero, suc, ◌≡◌, true, false, List, [], ◌∷◌, String, All, some, none,
}
use go_handbook_for_software.Http.Status.{IsFinal}
use go_handbook_for_software.Pools.{tally as count}
use go_handbook_for_software.Payments.{ChargeInput, new_memory_store, memory_store}
use go_handbook_for_software.Payments.Transport.{Request, Wire, livez}
use go_handbook_for_software.Telemetry.{View, observed_routes}
use go_handbook_for_software.Telemetry.Requests.{observed_routes_count}
use go_handbook_for_software.Telemetry.Business.{
  Call, charge_call, calls, SampleCounts, calls_counted,
}

abbrev tally : ℕ → String
tally zero = ""
tally (suc n) = "x" ++ tally n

abbrev input : ChargeInput
input = record { customer_id = "ann"; amount_minor = 500; currency = "USD" }

abbrev wire : Wire
wire = record {
  decode = λ body. some input;
  encode = λ p. some "{}";
  message = λ vs. "invalid";
  trim_space = λ s. s;
  to_upper = λ s. s;
  mux = λ r. some (livez, "");
  unmatched = λ r. [];
}

abbrev probe : Request
probe = record {
  authorization = "Bearer user:ann";
  body = "";
  target = "GET /livez";
  identity = none;
  path_id = "";
}

abbrev seen_as : Request → View
seen_as r = record { method = "GET"; path = "/livez"; pattern = "/" }

abbrev bytes : String → List ℕ
bytes s = 0x2f ∷ []

wire-finals : (q : Request) → All IsFinal (wire.unmatched q)
wire-finals q = tt

observed_routes_count_example :
    (observed_routes
      (memory_store tally)
      wire
      9
      bytes
      tally
      seen_as
      "req_1"
      probe
      new_memory_store).0.panicked
    ≡ false
observed_routes_count_example =
    (observed_routes_count (memory_store tally) wire 9 bytes tally seen_as "req_1" probe
      new_memory_store wire-finals).1

abbrev nameless : ChargeInput
nameless = record { customer_id = ""; amount_minor = 500; currency = "USD" }

abbrev history : List Call
history = charge_call 9 input ∷ charge_call 10 nameless ∷ []

calls_counted_example :
    let (s', samples) =
      calls tally wire.trim_space wire.to_upper (some true) history new_memory_store in
    SampleCounts 2 new_memory_store s' samples
unfolding count
calls_counted_example = calls_counted tally wire.trim_space wire.to_upper history new_memory_store
