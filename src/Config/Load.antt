-- ===== src/Config/Load.antt =====
-- config.go's `Load`: the environments that it accepts.
use go_handbook_for_software.Base.{
  ℕ, ◌≡◌, ◌≢◌, refl, sym, ap, ◌∙◌, ◌↔◌, ◌⊎◌, inl, inr, false, List, [], ◌∷◌, ◌++◌, Option, some,
  String, ok, err, str_dec, arith, Option-cases, subst,
}
use go_handbook_for_software.Base.Int64
use go_handbook_for_software.Base.Guards.{ok-injective}
use go_handbook_for_software.Config.{
  Config, Violation, not_duration, not_integer, env, must, check_store, check_url, check_level,
  check_timeout, parsed_config, violations, load,
}

-- the value of a variable, or the default if it is unset
unfoldable pub IsText : (raw def value : String) → Type 0
IsText raw def value = ((raw ≡ "") × (value ≡ def)) ⊎ ((raw ≢ "") × (value ≡ raw))

-- what a variable's value parses to, or the default if it is unset
unfoldable pub IsNumber : (String → Option ℕ) → (raw : String) → (def value : ℕ) → Type 0
IsNumber parse raw def value =
    ((raw ≡ "") × (value ≡ def)) ⊎ ((raw ≢ "") × (parse raw ≡ some value))

-- What an environment must satisfy for the configuration that it gives.
pub record IsLoaded (parse_duration scan_int : String → Option ℕ) (environ : String → String)
    (c : Config) : Type 0 where
  pub addr : IsText (environ "ADDR") ":8080" c.addr
  pub store : IsText (environ "STORE") "memory" c.store
  pub log_level : IsText (environ "LOG_LEVEL") "info" c.log_level
  pub database_url : c.database_url ≡ environ "DATABASE_URL"
  pub grace : IsNumber parse_duration (environ "SHUTDOWN_GRACE") 25_000_000_000 c.shutdown_grace
  pub timeout : IsNumber parse_duration (environ "REQUEST_TIMEOUT") 10_000_000_000 c.request_timeout
  pub pool : IsNumber scan_int (environ "POOL_MAX_OPEN") 25 c.pool_max_open
  pub known_store : (c.store ≡ "memory") ⊎ (c.store ≡ "postgres")
  pub needs_url : c.store ≡ "postgres" → c.database_url ≢ ""
  pub known_level :
      (c.log_level ≡ "debug")
      ⊎ (c.log_level ≡ "info")
      ⊎ (c.log_level ≡ "warn")
      ⊎ (c.log_level ≡ "error")
  pub positive : Int64.le c.request_timeout 0 ≡ false
  pub at_most_minute : Int64.lt 60_000_000_000 c.request_timeout ≡ false

cons≢nil : {A : Type 0} (x : A) (xs : List A) → (x ∷ xs) ≢ []
cons≢nil x xs e = cc

both_empty : {A : Type 0} (xs ys : List A) → (xs ++ ys ≡ []) ↔ ((xs ≡ []) × (ys ≡ []))
both_empty [] ys = (λ e. (refl, e), λ p. p.1)
both_empty (x ∷ xs) ys = (λ e. cc, λ p. cc)

env_iff :
    (get : String → String) (key def value : String)
    → (env get key def ≡ value) ↔ IsText (get key) def value
unfolding env IsText
env_iff get key def value = elim (str_dec (get key) "") [
  | yes e ↦ (λ h. ground (arith, e, h), λ p. ground (arith, e, p))
  | no n ↦ (λ h. ground (arith, n, h), λ p. ground (arith, n, p))
]

must_iff :
    (parse : String → Option ℕ) (violation : String → String → Violation) (get : String → String)
    (key : String) (def value : ℕ)
    → (((must parse violation get key def).1 ≡ []) × ((must parse violation get key def).0 ≡ value))
      ↔ IsNumber parse (get key) def value
unfolding must IsNumber
must_iff parse violation get key def value = elim (str_dec (get key) "") [
  | yes e ↦ (λ h. ground (arith, e, h), λ p. ground (arith, e, p))
  | no n ↦ elim (Option-cases (parse (get key))) [
    | inl e ↦ (λ h. ground (arith, e, h, n), λ p. ground (arith, e, p, n))
    | inr (d, e) ↦ (λ h. ground (arith, e, h, n), λ p. ground (arith, e, p, n))
  ]
]

check_store_iff : (s : String) → (check_store s ≡ []) ↔ ((s ≡ "memory") ⊎ (s ≡ "postgres"))
unfolding check_store
check_store_iff s = (λ e. ground (arith, e), λ e. ground (arith, e))

check_url_iff : (s u : String) → (check_url s u ≡ []) ↔ (s ≡ "postgres" → u ≢ "")
unfolding check_url
check_url_iff s u = (λ e p. ground (arith, e, p), λ f. ground (arith, f))

check_level_iff :
    (l : String)
    → (check_level l ≡ []) ↔ ((l ≡ "debug") ⊎ (l ≡ "info") ⊎ (l ≡ "warn") ⊎ (l ≡ "error"))
unfolding check_level
check_level_iff l = (λ e. ground (arith, e), λ e. ground (arith, e))

check_timeout_iff :
    (t : ℕ)
    → (check_timeout t ≡ []) ↔ ((Int64.le t 0 ≡ false) × (Int64.lt 60_000_000_000 t ≡ false))
unfolding check_timeout
check_timeout_iff t = (λ e. ground (arith, e), λ e. ground (arith, e))

-- a configuration is its fields
same_config :
    (c c' : Config)
    → c.addr ≡ c'.addr
    → c.store ≡ c'.store
    → c.database_url ≡ c'.database_url
    → c.shutdown_grace ≡ c'.shutdown_grace
    → c.request_timeout ≡ c'.request_timeout
    → c.pool_max_open ≡ c'.pool_max_open
    → c.log_level ≡ c'.log_level
    → c ≡ c'
same_config c c' a s d g t p l = λ i. record {
  addr = a i;
  store = s i;
  database_url = d i;
  shutdown_grace = g i;
  request_timeout = t i;
  pool_max_open = p i;
  log_level = l i;
}

module _ (parse_duration scan_int : String → Option ℕ) (environ : String → String) where
  abbrev config : Config
  config = parsed_config parse_duration scan_int environ

  abbrev all : List Violation
  all = violations parse_duration scan_int environ

  abbrev Loaded : Config → Type 0
  Loaded = IsLoaded parse_duration scan_int environ

  violations-IsLoaded : all ≡ [] → Loaded config
  unfolding violations parsed_config
  violations-IsLoaded e =
      let c = config in
      let a = (both_empty _ _).0 e in
      let b = (both_empty _ _).0 a.1 in
      let d = (both_empty _ _).0 b.1 in
      let f = (both_empty _ _).0 d.1 in
      let g = (both_empty _ _).0 f.1 in
      let h = (both_empty _ _).0 g.1 in
      record {
        addr = (env_iff environ "ADDR" ":8080" c.addr).0 refl;
        store = (env_iff environ "STORE" "memory" c.store).0 refl;
        log_level = (env_iff environ "LOG_LEVEL" "info" c.log_level).0 refl;
        database_url = refl;
        grace =
            (must_iff parse_duration not_duration environ "SHUTDOWN_GRACE" 25_000_000_000
                c.shutdown_grace).0
              (a.0, refl);
        timeout =
            (must_iff parse_duration not_duration environ "REQUEST_TIMEOUT" 10_000_000_000
                c.request_timeout).0
              (b.0, refl);
        pool =
            (must_iff scan_int not_integer environ "POOL_MAX_OPEN" 25 c.pool_max_open).0
              (d.0, refl);
        known_store = (check_store_iff c.store).0 f.0;
        needs_url = (check_url_iff c.store c.database_url).0 g.0;
        known_level = (check_level_iff c.log_level).0 h.0;
        positive = ((check_timeout_iff c.request_timeout).0 h.1).0;
        at_most_minute = ((check_timeout_iff c.request_timeout).0 h.1).1;
      }

  IsLoaded-config : (c : Config) → Loaded c → config ≡ c
  unfolding parsed_config
  IsLoaded-config c v =
      same_config config c ((env_iff environ "ADDR" ":8080" c.addr).1 v.addr)
        ((env_iff environ "STORE" "memory" c.store).1 v.store) (sym v.database_url)
        (((must_iff parse_duration not_duration environ "SHUTDOWN_GRACE" 25_000_000_000
            c.shutdown_grace).1
          v.grace).1)
        (((must_iff parse_duration not_duration environ "REQUEST_TIMEOUT" 10_000_000_000
            c.request_timeout).1
          v.timeout).1)
        (((must_iff scan_int not_integer environ "POOL_MAX_OPEN" 25 c.pool_max_open).1 v.pool).1)
        ((env_iff environ "LOG_LEVEL" "info" c.log_level).1 v.log_level)

  IsLoaded-violations : Loaded config → all ≡ []
  unfolding violations parsed_config
  IsLoaded-violations v =
      let c = config in
      rw
        (
          ((must_iff parse_duration not_duration environ "SHUTDOWN_GRACE" 25_000_000_000
                c.shutdown_grace).1
              v.grace).0,
          ((must_iff parse_duration not_duration environ "REQUEST_TIMEOUT" 10_000_000_000
                c.request_timeout).1
              v.timeout).0,
          ((must_iff scan_int not_integer environ "POOL_MAX_OPEN" 25 c.pool_max_open).1 v.pool).0,
          (check_store_iff c.store).1 v.known_store,
          (check_url_iff c.store c.database_url).1 v.needs_url,
          (check_level_iff c.log_level).1 v.known_level,
          (check_timeout_iff c.request_timeout).1 (v.positive, v.at_most_minute),
        )
        refl

  -- `Load` gives a configuration exactly if: ADDR, STORE, LOG_LEVEL, SHUTDOWN_GRACE, REQUEST_TIMEOUT
  -- and POOL_MAX_OPEN, where set, give the field of theirs, the last three by their parsers, and where
  -- unset leave it :8080, memory, info, 25s, 10s and 25; the database URL is DATABASE_URL; the store is
  -- memory or postgres; the URL is not empty for postgres; the level is one of the four; and the
  -- request timeout lies in (0, 1m].
  pub load_iff :
      (c : Config)
      → (load parse_duration scan_int environ ≡ ok c) ↔ IsLoaded parse_duration scan_int environ c
  unfolding load
  load_iff c = by_violations all refl
    where
      by_violations :
          (vs : List Violation)
          → all ≡ vs
          → ((elim all [ v ∷ vs' ↦ err (v ∷ vs') | [] ↦ ok config ]) ≡ ok c) ↔ Loaded c
      by_violations [] e = rw e (
        λ p. subst Loaded (ok-injective p) (violations-IsLoaded e),
        λ l. ap ok (IsLoaded-config c l),
      )
      by_violations (v ∷ vs) e =
          let none_left =
            λ (l : Loaded c). IsLoaded-violations (subst Loaded (sym (IsLoaded-config c l)) l) in
          rw e (λ p. absurd cc, λ l. absurd (cons≢nil v vs (sym e ∙ none_left l)))
