-- ===== src/Memory.antt =====
-- 09-memory-runtime/examples/memwatch/memwatch.go: the Tracker, whose goroutines are steps, and
-- MapGrowth. Payloads are any values, and `maxEntries` is taken to be at least 0.
pub mod Workers
pub mod Sessions
use go_handbook_for_software.Base.{
  ℕ, ◌+◌, ◌≡◌, Bool, true, false, List, [], ◌∷◌, ◌++◌, str_dec, String, if◌then◌else◌, leb, length,
}
use go_handbook_for_software.Base.Dict

-- A goroutine of `Start`: its id, and whether its `quit` channel is closed.
pub record Worker : Type 0 where
  pub id : ℕ
  pub quitting : Bool

-- `Tracker`: the entries of `stop`, the counter, and the goroutines of `StartNoOwner`, which no field
-- of the program knows.
pub record Tracker : Type 0 where
  pub stop : List Worker
  pub next : ℕ
  pub ownerless : ℕ

-- `NewTracker`
unfoldable pub new_tracker : Tracker
new_tracker = record { stop = []; next = 0; ownerless = 0 }

-- `StartNoOwner`
unfoldable pub start_no_owner : Tracker → Tracker
start_no_owner t = record t { ownerless = t.ownerless + 1 }

-- `Start` with `nextID`
unfoldable pub start_worker : Tracker → Tracker
start_worker t = record t {
  stop = t.stop ++ record { id = t.next + 1; quitting = false } ∷ [];
  next = t.next + 1;
}

-- `LiveWorkers`
unfoldable pub live_workers : Tracker → ℕ
live_workers t = length t.stop

-- the sessions of `MapGrowth`
abbrev pub SessionMap : Type 0 → Type 0
SessionMap P = List (String × P)

-- `MapGrowth.Add`
unfoldable pub add : {P : Type 0} → String → P → SessionMap P → SessionMap P
add key payload m = Dict.insert str_dec key payload m

-- `MapGrowth.AddWithTTL`
unfoldable pub add_with_ttl : {P : Type 0} → String → P → ℕ → SessionMap P → SessionMap P
add_with_ttl key payload max_entries m =
    if leb max_entries (length m)
    then Dict.insert str_dec key payload []
    else Dict.insert str_dec key payload m

-- `MapGrowth.Size`
unfoldable pub size : {P : Type 0} → SessionMap P → ℕ
size m = length m
