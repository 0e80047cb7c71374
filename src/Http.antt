-- ===== src/Http.antt =====
-- What the HTTP programs share: 14-backend-development/examples/service/internal/platform/httpjson
-- and httpmw, whose Chain, statusWriter, Recover and writers 12-http-networking/examples/api/main.go
-- repeats. A handler runs to the calls it makes on its ResponseWriter, in order, with the state and
-- the log lines it leaves, and it may panic after them. `respond` is what net/http sends for such
-- calls: the first final status commits the headers set so far, a write without one commits 200, and
-- a later status is dropped. The request id is an argument; trace ids and the line for a failed
-- encoder are left out of the log.
pub mod Chains
pub mod Status
pub mod Recovery
mod Tests
use Prim.Native.String.{◌++◌ as ◌+++◌}
use go_handbook_for_software.Base.{
  ℕ, zero, suc, ◌-◌, Bool, true, false, not, ◌&&◌, ◌||◌, List, [], ◌∷◌, ◌++◌, str_dec, Option, none,
  some, String, if◌then◌else◌, ltb, leb, ◌==◌, length,
}
use go_handbook_for_software.Base.Dict

-- a call on a ResponseWriter: `Header().Set`, `WriteHeader`, `Write`
pub data Event : Type 0 where
  set_header : String → String → Event
  write_header : ℕ → Event
  write : String → Event

-- a log line: an access line with its status, a recovered panic, and the two of `WriteError`
pub data Line : Type 0 where
  access : ℕ → Line
  panic internal_error request_failed : Line

-- a run of a handler
pub record Ran (S : Type 0) : Type 0 where
  pub state : S
  pub events : List Event
  pub logs : List Line
  pub panicked : Bool

abbrev pub Handler : Type 0 → Type 0 → Type 0
Handler Q S = Q → S → Ran S

-- a response as net/http sends it; `status` is `none` until one is committed
pub record Response : Type 0 where
  pub status : Option ℕ
  pub headers : List (String × String)
  pub body : List String

abbrev pub no_response : Response
no_response = record { status = none; headers = []; body = [] }

-- an informational status is sent at once and commits nothing
abbrev pub is_final : ℕ → Bool
is_final code = ltb 199 code || code == 101

abbrev pub commit : ℕ → Response → Response
commit code r = record r { status = some code }

-- one call on the writer
abbrev pub respond_one : Event → Response → Response
respond_one (set_header k v) r = elim r.status [
  | none ↦ record r { headers = Dict.insert str_dec k v r.headers }
  | some code ↦ r
]
respond_one (write_header code) r = elim r.status [
  | none ↦ if is_final code then commit code r else r
  | some first ↦ r
]
respond_one (write text) r = elim r.status [
  | none ↦ record r { status = some 200; body = r.body ++ text ∷ [] }
  | some code ↦ record r { body = r.body ++ text ∷ [] }
]

abbrev pub respond : List Event → Response → Response
respond [] r = r
respond (e ∷ es) r = respond es (respond_one e r)

-- `http.Error`
abbrev pub http_error : String → ℕ → List Event
http_error msg code =
    set_header "Content-Type" "text/plain; charset=utf-8"
    ∷ set_header "X-Content-Type-Options" "nosniff"
    ∷ write_header code
    ∷ write (msg +++ "\n")
    ∷ []

-- `Write` of httpjson, `writeJSON`; an encoder that fails gives no text
unfoldable pub write_json : {A : Type 0} → (A → Option String) → ℕ → A → List Event
write_json encode status v =
    set_header "Content-Type" "application/json; charset=utf-8"
    ∷ write_header status
    ∷ elim (encode v) [ none ↦ [] | some text ↦ write text ∷ [] ]

-- `WriteError` of httpjson after the mapper has answered
unfoldable pub write_mapped : Option (String × ℕ) → List Event × List Line
write_mapped none = (http_error "internal error" 500, internal_error ∷ [])
write_mapped (some (msg, status)) =
    (http_error msg status, if leb 500 status then request_failed ∷ [] else [])

-- `WriteError` of httpjson; a nil mapper is `none`
unfoldable pub write_error :
    {E : Type 0} → Option (E → Option (String × ℕ)) → E → List Event × List Line
write_error none e = (http_error "internal error" 500, internal_error ∷ [])
write_error (some mapper) e = write_mapped (mapper e)

-- `statusWriter`: the status after a list of calls, 0 before the first
abbrev pub record_one : Event → ℕ → ℕ
record_one (set_header k v) status = status
record_one (write_header code) status = if status == 0 then code else status
record_one (write text) status = if status == 0 then 200 else status

abbrev pub status_of : List Event → ℕ → ℕ
status_of [] status = status
status_of (e ∷ es) status = status_of es (record_one e status)

module _ {Q S : Type 0} where
  -- the loop of `Chain`, from `mws[i - 1]` down to `mws[0]`
  abbrev pub mws_at : List (Handler Q S → Handler Q S) → ℕ → Handler Q S → Handler Q S
  mws_at [] i h = h
  mws_at (m ∷ ms) zero h = m h
  mws_at (m ∷ ms) (suc i) h = mws_at ms i h

  unfoldable pub chain_loop : ℕ → List (Handler Q S → Handler Q S) → Handler Q S → Handler Q S
  chain_loop zero mws h = h
  chain_loop (suc i) mws h = chain_loop i mws (mws_at mws i h)

  -- `Chain`
  unfoldable pub chain : Handler Q S → List (Handler Q S → Handler Q S) → Handler Q S
  chain h mws = chain_loop (length mws) mws h

  -- `ScopedLogger`, `RequestID`
  unfoldable pub request_id : String → Handler Q S → Handler Q S
  request_id id next r s =
      let ran = next r s in record ran { events = set_header "X-Request-ID" id ∷ ran.events }

  -- `AccessLog`, `Logging`: no line is written when a panic passes
  unfoldable pub access_log : Handler Q S → Handler Q S
  access_log next r s =
      let ran = next r s in
      if ran.panicked
      then ran
      else record ran { logs = ran.logs ++ access (status_of ran.events 0) ∷ [] }

  -- `Recover`
  unfoldable pub recover : Handler Q S → Handler Q S
  recover next r s =
      let ran = next r s in
      let answer = if status_of ran.events 0 == 0 then http_error "internal error" 500 else [] in
      if ran.panicked
      then record {
        state = ran.state;
        events = ran.events ++ answer;
        logs = ran.logs ++ panic ∷ [];
        panicked = false;
      }
      else ran
