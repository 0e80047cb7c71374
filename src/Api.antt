-- ===== src/Api.antt =====
-- 12-http-networking/examples/api/main.go: the payments API on the standard library. Its writers and
-- its middleware are those of Http. JSON, `strings.ToUpper`, the ids of `fmt.Sprintf`, the mux and
-- `http.TimeoutHandler` of net/http are arguments. The listener and the shutdown of `main` are left
-- out but for the flag that `main` clears before it drains.
pub mod Stack
pub mod Payments
mod Tests
use Prim.Native.String.{len, ◌++◌ as ◌+++◌}
use go_handbook_for_software.Base.{
  ℕ, zero, suc, ◌+◌, Bool, true, false, not, ◌||◌, List, [], ◌∷◌, ◌++◌, ite, str_dec, Option, none,
  some, String, Result, ok, err, if◌then◌else◌, ◌==◌,
}
use go_handbook_for_software.Base.Int64
use go_handbook_for_software.Base.Dict
use go_handbook_for_software.Http.{
  Event, set_header, write_header, write, Line, internal_error, Ran, Handler, http_error,
  write_json, chain, recover, request_id, access_log,
}
use go_handbook_for_software.Security.Split.{join}

-- `ErrNotFound`, `ValidationError` with its text, and any other error of a store
pub data Error : Type 0 where
  not_found : Error
  validation other : String → Error

pub record Payment : Type 0 where
  pub id : String
  pub customer_id : String
  pub amount_minor : ℕ
  pub currency : String
  pub status : String

-- `Store`
pub record Store (S : Type 0) : Type 0 where
  pub create : Payment → S → S × Result Error Payment
  pub get : String → S → S × Result Error Payment

pub record MemoryStore : Type 0 where
  pub by_id : List (String × Payment)
  pub seq : ℕ

abbrev pub new_memory_store : MemoryStore
new_memory_store = record { by_id = []; seq = 0 }

-- `MemoryStore.Create`
unfoldable pub create : (ℕ → String) → Payment → MemoryStore → MemoryStore × Result Error Payment
create pay_id p m =
    let seq = m.seq + 1 in
    let p' = record p { id = pay_id seq; status = "created" } in
    (record { by_id = Dict.insert str_dec p'.id p' m.by_id; seq = seq }, ok p')

-- `MemoryStore.Get`
unfoldable pub get : String → MemoryStore → MemoryStore × Result Error Payment
get id m = elim (Dict.lookup str_dec id m.by_id) [ none ↦ (m, err not_found) | some p ↦ (m, ok p) ]

abbrev pub memory_store : (ℕ → String) → Store MemoryStore
memory_store pay_id = record { create = create pay_id; get = get }

-- `createPaymentRequest`
pub record CreatePaymentRequest : Type 0 where
  pub customer_id : String
  pub amount_minor : ℕ
  pub currency : String

pub record Request : Type 0 where
  pub body : String
  pub target : String
  pub path_id : String

pub data Pattern : Type 0 where
  get_healthz get_readyz post_payments get_payments : Pattern

-- the packages that the server calls
pub record Wire : Type 0 where
  pub decode : String → Option CreatePaymentRequest
  pub encode : Payment → Option String
  pub to_upper : String → String
  pub mux : Request → Option (Pattern × String)
  pub unmatched : Request → List Event

-- `Server`
pub record Server (S : Type 0) : Type 0 where
  pub store : S
  pub ready : Bool

-- `NewServer`
abbrev pub new_server : {S : Type 0} → S → Server S
new_server s = record { store = s; ready = true }

-- `s.ready.Store(false)` of `main`
abbrev pub drain : {S : Type 0} → Server S → Server S
drain s = record s { ready = false }

-- the rules of `handleCreatePayment`
unfoldable pub violations : (String → String) → CreatePaymentRequest → List String
violations to_upper req =
    let bad_code = "currency must be a 3-letter uppercase code" ∷ [] in
    ite (str_dec req.customer_id "") ("customer_id is required" ∷ []) []
    ++ (if Int64.le req.amount_minor 0 then "amount_minor must be positive" ∷ [] else [])
    ++ (if not (len req.currency == 3)
        then bad_code
        else ite (str_dec (to_upper req.currency) req.currency) [] bad_code)

-- a handler that returns after these calls
abbrev pub answer : {S : Type 0} → S → List Event × List Line → Ran S
answer s (events, logs) = record { state = s; events = events; logs = logs; panicked = false }

-- `writeError`
unfoldable pub write_error : Error → List Event × List Line
write_error (validation msg) = (http_error msg 422, [])
write_error not_found = (http_error "payment not found" 404, [])
write_error (other text) = (http_error "internal error" 500, internal_error ∷ [])

-- the payment that `handleCreatePayment` hands to the store
abbrev pub requested : CreatePaymentRequest → Payment
requested req = record {
  id = "";
  customer_id = req.customer_id;
  amount_minor = req.amount_minor;
  currency = req.currency;
  status = "";
}

module _ {S : Type 0} (store : Store S) (wire : Wire) where
  -- the end of `handleCreatePayment`
  unfoldable pub created : Server S → S × Result Error Payment → Ran (Server S)
  created srv (s, err e) = answer (record srv { store = s }) (write_error e)
  created srv (s, ok p) =
      answer (record srv { store = s })
        (set_header "Location" ("/payments/" +++ p.id) ∷ write_json wire.encode 201 p, [])

  -- `handleCreatePayment` with the rules tested
  unfoldable pub checked : CreatePaymentRequest → List String → Server S → Ran (Server S)
  checked req [] srv = created srv (store.create (requested req) srv.store)
  checked req (v ∷ vs) srv = answer srv (write_error (validation (join "; " (v ∷ vs))))

  -- `handleCreatePayment`
  unfoldable pub handle_create_payment : Handler Request (Server S)
  handle_create_payment r srv = elim (wire.decode r.body) [
    | none ↦ answer srv (http_error "invalid request body" 400, [])
    | some req ↦ checked req (violations wire.to_upper req) srv
  ]

  -- the end of `handleGetPayment`
  unfoldable pub shown : Server S → S × Result Error Payment → Ran (Server S)
  shown srv (s, err e) = answer (record srv { store = s }) (write_error e)
  shown srv (s, ok p) = answer (record srv { store = s }) (write_json wire.encode 200 p, [])

  -- `handleGetPayment`
  unfoldable pub handle_get_payment : Handler Request (Server S)
  handle_get_payment r srv = shown srv (store.get r.path_id srv.store)

  -- `handleHealth`
  unfoldable pub handle_health : Handler Request (Server S)
  handle_health r srv = answer srv (write "ok\n" ∷ [], [])

  -- `handleReady`
  unfoldable pub handle_ready : Handler Request (Server S)
  handle_ready r srv =
      if not srv.ready
      then answer srv (http_error "draining" 503, [])
      else answer srv (write "ok\n" ∷ [], [])

  -- the table of `Handler`
  unfoldable pub handler_of : Pattern → Handler Request (Server S)
  handler_of get_healthz = handle_health
  handler_of get_readyz = handle_ready
  handler_of post_payments = handle_create_payment
  handler_of get_payments = handle_get_payment

  -- the mux
  unfoldable pub serve_mux : Handler Request (Server S)
  serve_mux r srv = elim (wire.mux r) [
    | none ↦ answer srv (wire.unmatched r, [])
    | some (pattern, id) ↦ handler_of pattern (record r { path_id = id }) srv
  ]

  -- `Server.Handler`; `timeout` is `http.TimeoutHandler` with its ten seconds
  unfoldable pub handler :
      (Handler Request (Server S) → Handler Request (Server S))
      → String
      → Handler Request (Server S)
  handler timeout id = chain (timeout serve_mux) (access_log ∷ request_id id ∷ recover ∷ [])
