-- ===== src/Slices/Tests.antt =====
-- The theorems about chunks, filters and truncation at concrete inputs.
use go_handbook_for_software.Base.{ℕ, List, [], ◌∷◌}

abbrev three : List ℕ
three = 7 ∷ 8 ∷ 9 ∷ []
