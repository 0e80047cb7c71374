-- ===== src/Base/Keys.antt =====
-- Lists of texts as sets.
use Prim.Native.String.{String}
use mathlib.Core.Path.{◌≡◌, refl}
use mathlib.Core.Logic.{ite}
use mathlib.Core.Bool.{Bool, true, false}
use mathlib.Core.List.{List, [], ◌∷◌, ◌++◌}
use native.Mathlib.Omega.{arith}
use go_handbook_for_software.Base.Tests.{str_dec}

-- Whether a key is in a list
abbrev pub has : String → List String → Bool
has k [] = false
has k (x ∷ q) = ite (str_dec x k) true (has k q)

-- Each key stands once.
abbrev pub IsDistinct : List String → Type 0
IsDistinct [] = Unit
IsDistinct (x ∷ q) = (has x q ≡ false) × IsDistinct q

pub has_last :
    (k x : String) (q : List String) → has k (q ++ x ∷ []) ≡ ite (str_dec x k) true (has k q)
has_last k x [] = refl
has_last k x (y ∷ q) = ground (arith, has_last k x q)

pub IsDistinct-last :
    (x : String) (q : List String) → IsDistinct q → has x q ≡ false → IsDistinct (q ++ x ∷ [])
IsDistinct-last x [] d h = (refl, tt)
IsDistinct-last x (y ∷ q) d h =
    (ground (arith, has_last y x q, d.0), IsDistinct-last x q d.1 (ground arith))
