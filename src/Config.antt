-- ===== src/Config.antt =====
-- 14-backend-development/examples/service/internal/config/config.go: the loader, and main.go's use of
-- the loaded values. Durations and `int32` values are bit patterns of `int64`; `time.ParseDuration`,
-- `fmt.Sscanf` with "%d" and the texts of durations and numbers are parameters. Violations are kept
-- as values in the place of their texts.
pub mod Load
pub mod Summary
pub mod Startup
pub mod Shutdown
mod Tests
use Prim.Native.String.{◌++◌ as ◌+++◌}
use go_handbook_for_software.Base.{
  ℕ, Bool, true, false, ◌||◌, not, List, [], ◌∷◌, ◌++◌, ite, str_dec, Option, none, some, String,
  Result, ok, err, if◌then◌else◌,
}
use go_handbook_for_software.Base.Int64

-- `Secret.String`
unfoldable pub redact : String → String
redact s = ite (str_dec s "") "" "[REDACTED]"

-- `Config`; `Store` and `DatabaseURL` by their texts
pub record Config : Type 0 where
  pub addr : String
  pub store : String
  pub database_url : String
  pub shutdown_grace : ℕ
  pub request_timeout : ℕ
  pub pool_max_open : ℕ
  pub log_level : String

-- the errors that `Load` joins
pub data Violation : Type 0 where
  not_duration not_integer : String → String → Violation
  bad_store bad_level : String → Violation
  url_required : Violation
  timeout_range : ℕ → Violation

-- `env`
unfoldable pub env : (String → String) → String → String → String
env get key def = ite (str_dec (get key) "") def (get key)

-- what `mustDuration` and `mustInt32` make of the parser's answer
parsed : Violation → ℕ → Option ℕ → ℕ × List Violation
parsed v def none = (def, v ∷ [])
parsed v def (some d) = (d, [])

-- `mustDuration` and `mustInt32`, with their parser and their error
unfoldable pub must :
    (String → Option ℕ)
    → (String → String → Violation)
    → (String → String)
    → String
    → ℕ
    → ℕ × List Violation
unfolding parsed
must parse violation get key def =
    ite (str_dec (get key) "") (def, []) (parsed (violation key (get key)) def (parse (get key)))

-- the switch on `c.Store`
unfoldable pub check_store : String → List Violation
check_store s = ite (str_dec s "memory") [] (ite (str_dec s "postgres") [] (bad_store s ∷ []))

-- the check of `c.DatabaseURL`
unfoldable pub check_url : String → String → List Violation
check_url store url =
    ite (str_dec store "postgres") (ite (str_dec url "") (url_required ∷ []) []) []

-- the switch on `c.LogLevel`
unfoldable pub check_level : String → List Violation
check_level l = ite (str_dec l "debug") [] (
    ite (str_dec l "info") []
      (ite (str_dec l "warn") [] (ite (str_dec l "error") [] (bad_level l ∷ []))))

-- the check of `c.RequestTimeout`, in nanoseconds
unfoldable pub check_timeout : ℕ → List Violation
check_timeout t = if Int64.le t 0 || Int64.lt 60_000_000_000 t then timeout_range t ∷ [] else []

module _ (parse_duration scan_int : String → Option ℕ) (environ : String → String) where
  abbrev grace : ℕ × List Violation
  grace = must parse_duration not_duration environ "SHUTDOWN_GRACE" 25_000_000_000

  abbrev timeout : ℕ × List Violation
  timeout = must parse_duration not_duration environ "REQUEST_TIMEOUT" 10_000_000_000

  abbrev pool : ℕ × List Violation
  pool = must scan_int not_integer environ "POOL_MAX_OPEN" 25

  -- the fields that `Load` fills in
  unfoldable pub parsed_config : Config
  unfolding env must
  parsed_config = record {
    addr = env environ "ADDR" ":8080";
    store = env environ "STORE" "memory";
    database_url = environ "DATABASE_URL";
    shutdown_grace = grace.0;
    request_timeout = timeout.0;
    pool_max_open = pool.0;
    log_level = env environ "LOG_LEVEL" "info";
  }

  -- `errs` before it is joined
  unfoldable pub violations : List Violation
  unfolding parsed_config
  violations =
      let c = parsed_config in
      grace.1
      ++ (timeout.1
          ++ (pool.1
              ++ (check_store c.store
                  ++ (check_url c.store c.database_url
                      ++ (check_level c.log_level ++ check_timeout c.request_timeout)))))

  -- `Load`
  unfoldable pub load : Result (List Violation) Config
  unfolding violations
  load = elim violations [ v ∷ vs ↦ err (v ∷ vs) | [] ↦ ok parsed_config ]

-- `Config.Summary`
unfoldable pub summary : (ℕ → String) → (ℕ → String) → Config → String
unfolding redact
summary duration_text itoa c =
    "addr="
    +++ c.addr
    +++ " store="
    +++ c.store
    +++ " grace="
    +++ duration_text c.shutdown_grace
    +++ " timeout="
    +++ duration_text c.request_timeout
    +++ " pool="
    +++ itoa c.pool_max_open
    +++ " log="
    +++ c.log_level
    +++ " db="
    +++ redact c.database_url

-- the levels of slog
pub data Level : Type 0 where
  debug info warn error : Level

-- main's `newLogger`: the level that it sets
unfoldable pub new_logger : String → Level
new_logger l =
    ite (str_dec l "debug") debug (ite (str_dec l "warn") warn (ite (str_dec l "error") error info))

-- the store that main's `openStore` returns, or its error
pub data Opened : Type 0 where
  memory_store not_wired : Opened

-- main's `openStore`
unfoldable pub open_store : Config → Opened
open_store c = ite (str_dec c.store "postgres") not_wired memory_store
