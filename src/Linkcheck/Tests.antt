-- ===== src/Linkcheck/Tests.antt =====
-- Concrete runs: lines of few bytes, trimmed as they are.
use go_handbook_for_software.Base.{◌≡◌, refl, [], ◌∷◌, ◌++◌}
use go_handbook_for_software.Linkcheck.{Bytes, new_reading, read_lines}
use go_handbook_for_software.Linkcheck.Fences.{fence_skipped}

abbrev id : Bytes → Bytes
id l = l

-- a fence of tildes in a block of backquotes
abbrev go_fence : Bytes
go_fence = 96 ∷ 96 ∷ 96 ∷ 103 ∷ []

abbrev tilde_fence : Bytes
tilde_fence = 126 ∷ 126 ∷ 126 ∷ []

abbrev closing_fence : Bytes
closing_fence = 96 ∷ 96 ∷ 96 ∷ []

abbrev text_line : Bytes
text_line = 97 ∷ []

fence_skipped_example :
    (read_lines id
      (go_fence ∷ ((tilde_fence ∷ []) ++ closing_fence ∷ text_line ∷ []))
      new_reading).active
    ≡ (read_lines id (text_line ∷ []) new_reading).active
fence_skipped_example =
    fence_skipped id go_fence closing_fence (tilde_fence ∷ []) (text_line ∷ []) new_reading refl
      refl (refl, tt) refl

abbrev code : Bytes
code = 120 ∷ []

abbrev between : Bytes
between = 32 ∷ []

abbrev nothing : Bytes
nothing = []
