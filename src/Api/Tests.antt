-- ===== src/Api/Tests.antt =====
-- Concrete runs: a wire that reads one request, and a timeout that never runs out.
use Prim.Native.String.{◌++◌}
use go_handbook_for_software.Base.{ℕ, zero, suc, ◌≡◌, false, [], some, String}
use go_handbook_for_software.Http.{Handler}
use go_handbook_for_software.Api.{
  CreatePaymentRequest, Request, Wire, Server, MemoryStore, new_memory_store, new_server,
  memory_store, handler, serve_mux, get_healthz, handler_of, handle_health,
}
use go_handbook_for_software.Api.Stack.{handler_logs}

abbrev tally : ℕ → String
tally zero = ""
tally (suc n) = "x" ++ tally n

abbrev wanted : CreatePaymentRequest
wanted = record { customer_id = "ann"; amount_minor = 500; currency = "USD" }

abbrev wire : Wire
wire = record {
  decode = λ body. some wanted;
  encode = λ p. some "{}";
  to_upper = λ s. s;
  mux = λ r. some (get_healthz, "");
  unmatched = λ r. [];
}

abbrev request : Request
request = record { body = "{}"; target = "GET /healthz"; path_id = "" }

abbrev server : Server MemoryStore
server = new_server new_memory_store

abbrev in_time : Handler Request (Server MemoryStore) → Handler Request (Server MemoryStore)
in_time h = h

handler_logs_example :
    (handler (memory_store tally) wire in_time "req_1" request server).panicked ≡ false
unfolding serve_mux handler_of handle_health
handler_logs_example =
    (handler_logs (memory_store tally) wire in_time "req_1" request server (tt, tt)).0
