-- ===== src/Payments/Tests.antt =====
-- The theorems about the payment service at concrete inputs. An id is a tally of its number.
use Prim.Native.String.{◌++◌}
use go_handbook_for_software.Base.{
  ℕ, zero, suc, ◌≡◌, refl, [], ◌∷◌, String, str_dec, some, none, ◌≢◌, texts_differ,
}
use go_handbook_for_software.Base.Dict
use go_handbook_for_software.Payments.{
  Payment, MemoryStore, new_memory_store, charged, canceled, memory_store, cancel_service,
}
use go_handbook_for_software.Payments.Store.{stored}
use go_handbook_for_software.Payments.{ChargeInput, validate}
use go_handbook_for_software.Payments.Transport.{
  Identity, Request, Wire, post_payments, customer, trim_prefix, identify, routes, serve_mux,
}
use go_handbook_for_software.Payments.Gate.{caller, with_identity, routes_guard}
use go_handbook_for_software.Payments.Answers.{
  post_create_run, post_cancel_run, status_sent, create_then_cancel, cancel_hides,
}
use go_handbook_for_software.Payments.Authz.{cancel_service_decides}

abbrev tally : ℕ → String
tally zero = ""
tally (suc n) = "x" ++ tally n

abbrev payment : Payment
payment = record {
  id = "";
  customer_id = "ann";
  amount_minor = 500;
  currency = "USD";
  status = charged;
  created_at = 9;
}

abbrev one_stored : MemoryStore
one_stored = record {
  seq = 1;
  payments = ("x", record payment { id = "x" }) ∷ [];
  order = "x" ∷ [];
}

found : stored "x" one_stored ≡ some (record payment { id = "x" })
unfolding Dict.lookup str_dec
found = refl

cancel_service_decides_example :
    stored "x" (cancel_service (memory_store tally) (record { id = "ann" }) "x" one_stored).0
    ≡ some (record payment { id = "x"; status = canceled })
cancel_service_decides_example =
    (((cancel_service_decides tally (record { id = "ann" }) "x" one_stored).1
        (record payment { id = "x" }) found).2
      refl refl).1

abbrev input : ChargeInput
input = record { customer_id = "ann"; amount_minor = 500; currency = "USD" }

abbrev wire : Wire
wire = record {
  decode = λ body. some input;
  encode = λ p. some "{}";
  message = λ vs. "invalid";
  trim_space = λ s. s;
  to_upper = λ s. s;
  mux = λ r. some (post_payments, "");
  unmatched = λ r. [];
}

abbrev ann : Identity
ann = record { subject = "user:ann"; kind = "user" }

abbrev eve : Identity
eve = record { subject = "user:eve"; kind = "user" }

abbrev post : Request
post = record {
  authorization = "Bearer user:ann";
  body = "{}";
  target = "POST /payments";
  identity = some ann;
  path_id = "";
}

-- a request to cancel the payment "x"
abbrev cancel_by : Identity → Request
cancel_by i = record post { identity = some i; path_id = "x" }

input-valid : validate wire.trim_space wire.to_upper input ≡ []
unfolding validate str_dec
input-valid = refl

create_then_cancel_example :
    status_sent tally wire 9 (
      post_cancel_run tally wire 9
        (cancel_by ann)
        (post_create_run tally wire 9 post new_memory_store).state)
    ≡ some 204
unfolding customer trim_prefix
create_then_cancel_example =
    (create_then_cancel tally wire 9 post (cancel_by ann) input ann new_memory_store refl
      input-valid refl refl refl).0

eve-other : payment.customer_id ≢ (customer eve).id
unfolding customer trim_prefix str_dec
eve-other = texts_differ "ann" "eve" refl

nothing_stored : stored "x" new_memory_store ≡ none
unfolding Dict.lookup
nothing_stored = refl

cancel_hides_example :
    (post_cancel_run tally wire 9 (cancel_by eve) new_memory_store).events
    ≡ (post_cancel_run tally wire 9 (cancel_by eve) one_stored).events
cancel_hides_example =
    (cancel_hides tally wire 9 (cancel_by eve) eve new_memory_store one_stored
      (record payment { id = "x" }) refl nothing_stored found eve-other).0

ann-caller : caller post ≡ some ann
unfolding caller identify trim_prefix str_dec
ann-caller = refl

routes_guard_example :
    (routes (memory_store tally) wire 9 "req_1" post new_memory_store).state
    ≡ (serve_mux (memory_store tally) wire 9 (with_identity ann post) new_memory_store).state
routes_guard_example =
    ((routes_guard (memory_store tally) wire 9 "req_1" post new_memory_store).1 ann ann-caller).1
