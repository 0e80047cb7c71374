-- ===== src/Lru/Tests.antt =====
-- Concrete runs: a cache of two entries.
use go_handbook_for_software.Base.{ℕ, ◌≡◌, true, List, [], ◌∷◌, ℕ_discrete}
use go_handbook_for_software.Lru.{Lru, new_lru, put}
use go_handbook_for_software.Lru.Links.{pairs, IsValid, new_lru-IsValid}
use go_handbook_for_software.Lru.Refine.{put_refines}
use go_handbook_for_software.Lru.History.{
  Op, put_op, get_op, remove_op, run, run_spec, run-equivalent,
}

abbrev empty_cache : Lru ℕ ℕ
empty_cache = new_lru 2

abbrev with_one : Lru ℕ ℕ
with_one = (put ℕ_discrete 7 70 empty_cache).0

with_one-IsValid : IsValid ℕ_discrete with_one
with_one-IsValid = (put_refines ℕ_discrete 7 70 empty_cache (new_lru-IsValid ℕ_discrete 2)).0

abbrev calls : List (Op ℕ ℕ)
calls = put_op 1 10 ∷ put_op 2 20 ∷ get_op 1 ∷ put_op 3 30 ∷ remove_op 2 ∷ []

abbrev hooked_cache : Lru ℕ ℕ
hooked_cache = record (new_lru 2) { hooked = true }

run-equivalent_example :
    (pairs (run ℕ_discrete calls hooked_cache).0.nodes, (run ℕ_discrete calls hooked_cache).1)
    ≡ run_spec ℕ_discrete hooked_cache.bound true calls []
run-equivalent_example = run-equivalent ℕ_discrete calls 2 true
