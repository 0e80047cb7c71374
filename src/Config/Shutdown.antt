-- ===== src/Config/Shutdown.antt =====
-- 14-backend-development/examples/service/main.go: how the program ends.
use go_handbook_for_software.Base.{
  ◌≡◌, ◌≢◌, refl, Bool, true, false, List, [], ◌∷◌, ◌++◌, All, Option, none, some, String, Result,
  ok, err, str_dec, subst, sym, if_pos, if_neg,
}
use go_handbook_for_software.Config.{Config, Violation, memory_store, not_wired, open_store}
use go_handbook_for_software.Config.Startup.{
  Act, config_refused, started, tracing_failed, tracing_on, store_failed, store_opened, serving,
  shutting_down, forced_close, server_failed, bye, store_closed, flushed, exited, Serving,
  server_closed, listen_failed, signaled, run, finish, serve, wire, main,
}

-- neither an end of the process nor a deferred call
abbrev pub is_inner : Act → Bool
is_inner exited = false
is_inner store_closed = false
is_inner flushed = false
is_inner _ = true

-- The deferred calls run, in their order, and nothing comes after them.
pub record IsClean (acts : List Act) : Type 0 where
  pub before : List Act
  pub inner : All (λ a. is_inner a ≡ true) before
  pub order : acts ≡ before ++ (bye ∷ store_closed ∷ flushed ∷ [])

-- The process is exited, and no deferred call has run.
pub record IsCut (acts : List Act) : Type 0 where
  pub before : List Act
  pub inner : All (λ a. is_inner a ≡ true) before
  pub order : acts ≡ before ++ exited ∷ []

-- the serving ends without an error
abbrev pub Ends : Serving → Type 0
Ends s = (run s).1 ≡ none

serve-IsClean : (s : Serving) → Ends s → IsClean (started ∷ tracing_on ∷ serve memory_store s)
unfolding serve run finish
serve-IsClean server_closed e = record {
  before = started ∷ tracing_on ∷ store_opened ∷ serving ∷ [];
  inner = (refl, (refl, (refl, (refl, tt))));
  order = refl;
}
serve-IsClean (listen_failed e') e = absurd cc
serve-IsClean (signaled none) e = record {
  before = started ∷ tracing_on ∷ store_opened ∷ serving ∷ shutting_down ∷ [];
  inner = (refl, (refl, (refl, (refl, (refl, tt)))));
  order = refl;
}
serve-IsClean (signaled (some e')) e = record {
  before = started ∷ tracing_on ∷ store_opened ∷ serving ∷ shutting_down ∷ forced_close ∷ [];
  inner = (refl, (refl, (refl, (refl, (refl, (refl, tt))))));
  order = refl;
}

serve-IsCut : (e : String) → IsCut (started ∷ tracing_on ∷ serve memory_store (listen_failed e))
unfolding serve run finish
serve-IsCut e = record {
  before = started ∷ tracing_on ∷ store_opened ∷ serving ∷ server_failed ∷ [];
  inner = (refl, (refl, (refl, (refl, (refl, tt)))));
  order = refl;
}

-- The configuration is valid, tracing is set up, the store is not postgres, and the serving ends
-- without an error.
pub Runs : Result (List Violation) Config → Option String → Serving → Type 0
Runs cfg tracing s =
    (c : Config) × (cfg ≡ ok c) × (tracing ≡ none) × (c.store ≢ "postgres") × Ends s

open_store-wired : (c : Config) → c.store ≢ "postgres" → open_store c ≡ memory_store
unfolding open_store
open_store-wired c n = if_neg (str_dec c.store "postgres") n not_wired memory_store

open_store-not_wired : (c : Config) → c.store ≡ "postgres" → open_store c ≡ not_wired
unfolding open_store
open_store-not_wired c e = if_pos (str_dec c.store "postgres") e not_wired memory_store

IsClean-end :
    (c : Config) (s : Serving) → c.store ≢ "postgres" → Ends s → IsClean (main (ok c) none s)
unfolding main wire
IsClean-end c s n e = rw (open_store-wired c n) (serve-IsClean s e)

IsCut-end :
    (cfg : Result (List Violation) Config) (tracing : Option String) (s : Serving)
    → (Runs cfg tracing s → ⊥)
    → IsCut (main cfg tracing s)
unfolding main wire Runs serve run
IsCut-end (err vs) tracing s n = record {
  before = config_refused ∷ [];
  inner = (refl, tt);
  order = refl;
}
IsCut-end (ok c) (some e) s n = record {
  before = started ∷ tracing_failed ∷ [];
  inner = (refl, (refl, tt));
  order = refl;
}
IsCut-end (ok c) none s n = elim (str_dec c.store "postgres") [
  | yes e ↦ rw (open_store-not_wired c e) record {
    before = started ∷ tracing_on ∷ store_failed ∷ [];
    inner = (refl, (refl, (refl, tt)));
    order = refl;
  }
  | no d ↦ rw (open_store-wired c d) (by_serving s (λ e. n (c, refl, refl, d, e)))
]
  where
    by_serving :
        (s' : Serving) → (Ends s' → ⊥) → IsCut (started ∷ tracing_on ∷ serve memory_store s')
    by_serving server_closed m = absurd (m refl)
    by_serving (listen_failed e) m = serve-IsCut e
    by_serving (signaled none) m = absurd (m refl)
    by_serving (signaled (some e)) m = absurd (m refl)

-- The program closes its store and then flushes its traces, as its last acts, if its configuration is
-- valid, tracing is set up, the store is not postgres and the serving ends without an error, a forced
-- close after the grace period included. In every other case it is exited with neither done.
pub main_decides :
    (cfg : Result (List Violation) Config) (tracing : Option String) (s : Serving)
    → (Runs cfg tracing s → IsClean (main cfg tracing s))
      × ((Runs cfg tracing s → ⊥) → IsCut (main cfg tracing s))
unfolding Runs
main_decides cfg tracing s = (
  λ r.
      subst (λ x. IsClean (main x tracing s)) (sym r.1)
        (subst (λ t. IsClean (main (ok r.0) t s)) (sym r.2) (IsClean-end r.0 s r.3 r.4)),
  IsCut-end cfg tracing s,
)
