-- ===== src/Config/Startup.antt =====
-- 14-backend-development/examples/service/main.go: main and run, as the list of what they do. What
-- the tracing set-up, the listener and Shutdown answer is given; wiring without a result is left out.
use go_handbook_for_software.Base.{List, [], ◌∷◌, ◌++◌, Option, none, some, String, Result, ok, err}
use go_handbook_for_software.Config.{Config, Violation, Opened, memory_store, not_wired, open_store}

-- what the program does, in order; `exited` is os.Exit(1)
pub data Act : Type 0 where
  config_refused started tracing_failed tracing_on store_failed store_opened : Act
  serving shutting_down forced_close server_failed bye store_closed flushed exited : Act

-- what ends the serving: ListenAndServe returns ErrServerClosed or another error, or a signal comes,
-- and then what Shutdown answers within the grace period
pub data Serving : Type 0 where
  server_closed : Serving
  listen_failed : String → Serving
  signaled : Option String → Serving

-- `run`: what it does, and its error
unfoldable pub run : Serving → List Act × Option String
run server_closed = (serving ∷ [], none)
run (listen_failed e) = (serving ∷ [], some e)
run (signaled none) = (serving ∷ shutting_down ∷ [], none)
run (signaled (some e)) = (serving ∷ shutting_down ∷ forced_close ∷ [], none)

-- `main` after `run`: os.Exit runs no deferred call; a return runs them, the last deferred first
unfoldable pub finish : Option String → List Act
finish (some e) = server_failed ∷ exited ∷ []
finish none = bye ∷ store_closed ∷ flushed ∷ []

-- `main` from `openStore` on
unfoldable pub serve : Opened → Serving → List Act
unfolding run finish
serve not_wired s = store_failed ∷ exited ∷ []
serve memory_store s = store_opened ∷ ((run s).0 ++ finish (run s).1)

-- `main` after the configuration
unfoldable pub wire : Config → Option String → Serving → List Act
unfolding serve
wire c (some e) s = started ∷ tracing_failed ∷ exited ∷ []
wire c none s = started ∷ tracing_on ∷ serve (open_store c) s

-- `main`
unfoldable pub main : Result (List Violation) Config → Option String → Serving → List Act
unfolding wire
main (err vs) tracing s = config_refused ∷ exited ∷ []
main (ok c) tracing s = wire c tracing s
