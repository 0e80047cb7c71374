-- ===== src/Generics/Tests.antt =====
-- The theorems about the generic helpers at concrete inputs.
use go_handbook_for_software.Base.{
  ℕ, zero, suc, ◌<◌, ◌≡◌, refl, List, [], ◌∷◌, String, arith, none, some, ok, err,
}
use go_handbook_for_software.Generics.{Stack, Cache, Attempt, retry}
use go_handbook_for_software.Generics.Patience.{GoesOn, retry_ends}

abbrev ids : List String
ids = "a" ∷ "b" ∷ "a" ∷ []

abbrev one_item : Stack ℕ
one_item = record { items = 4 ∷ [] }

abbrev nil_cache : Cache ℕ String
nil_cache = record { items = none }

abbrev third_time : ℕ → Attempt String String
third_time zero = record { result = err "down"; dead = none; delay = 5; dies = none }
third_time (suc zero) = record { result = err "busy"; dead = none; delay = 5; dies = none }
third_time (suc (suc k)) = record { result = ok "up"; dead = none; delay = 5; dies = none }

third_time-GoesOn : (i : ℕ) → i < 2 → GoesOn third_time i
third_time-GoesOn zero h = record {
  error = "down";
  fails = refl;
  alive = refl;
  patient = refl;
  waits = refl;
}
third_time-GoesOn (suc zero) h = record {
  error = "busy";
  fails = refl;
  alive = refl;
  patient = refl;
  waits = refl;
}
third_time-GoesOn (suc (suc i)) h = absurd (omega arith)

retry_ends_example : retry third_time 9 ≡ some (ok "up", 3)
retry_ends_example = (retry_ends third_time 2 9 (omega arith) third_time-GoesOn).succeeds "up" refl
